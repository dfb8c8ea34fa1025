-- ===== src/Pool.antt =====
-- utils/pool.js: the pool of modems, and the choice of one for a send.
pub mod Rotation
use modem_sms_gateway.Prelude.{
  ℕ, suc, ◌+◌, ◌%◌, Bool, true, false, List, [], ◌∷◌, Option, none, some, Str, length, get_elem?,
  ltb, if◌then◌else◌, str_eq,
}

-- What the pool and the workers see of a modem: `connected` is what `isConnected()` answers now.
pub record Modem : Type 0 where
  pub id : Str
  pub driver : Str
  pub supports_ussd : Bool
  pub connected : Bool

-- `modems.get(id) || null`.
unfoldable pub get : List Modem → Str → Option Modem
get [] id = none
get (m ∷ ms) id = if str_eq m.id id then some m else get ms id

unfoldable pub ids : List Modem → List Str
ids [] = []
ids (m ∷ ms) = m.id ∷ ids ms

unfoldable pub only_connected : List Modem → List Modem
only_connected [] = []
only_connected (m ∷ ms) = if m.connected then m ∷ only_connected ms else only_connected ms

unfoldable pub candidates : List Modem → List Modem
unfolding only_connected
candidates list =
    let connected = only_connected list in if ltb 0 (length connected) then connected else list

-- The modem and the next value of the counter `rr`; `none` is the `undefined` of an empty pool.
unfoldable pub pick : List Modem → ℕ → Option Modem × ℕ
unfolding candidates
pick list rr = (get_elem? (candidates list) (rr % length (candidates list)), rr + 1)
