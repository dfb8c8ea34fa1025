-- ===== src/Encoding/Septets.antt =====
-- utils/sms-encoding.js: which characters the GSM-7 tables hold.
use modem_sms_gateway.Prelude.{
  ℕ, ◌≤◌, ◌<◌, ◌≡◌, refl, Bool, true, false, ◌&&◌, List, [], ◌∷◌, Option, none, some, arith, Str,
  ltb, is_some, map_get, map_has, str_eq_sound,
}
use modem_sms_gateway.Encoding.Charset.{gsm7_codes, gsm7_ext_codes, gsm7_cost}

abbrev pub is_basic_unit : Str → Bool
is_basic_unit (u ∷ []) = ltb u 0xd800
is_basic_unit _ = false

-- Every key is one code unit below the surrogates and every code is a septet.
abbrev table_ok : List (Str × ℕ) → Bool
table_ok [] = true
table_ok ((k, v) ∷ m) = (is_basic_unit k && ltb v 128) && table_ok m

pub map_get-table_ok :
    (m : List (Str × ℕ)) (k : Str) (v : ℕ)
    → table_ok m ≡ true
    → map_get m k ≡ some v
    → (is_basic_unit k ≡ true) × (v < 128)
unfolding map_get
map_get-table_ok [] k v t h = cc
map_get-table_ok ((j, w) ∷ m) k v t h = ground (arith, str_eq_sound j k, map_get-table_ok m k v)

pub gsm7_codes-table_ok : table_ok gsm7_codes ≡ true
unfolding gsm7_codes
gsm7_codes-table_ok = refl

pub gsm7_ext_codes-table_ok : table_ok gsm7_ext_codes ≡ true
unfolding gsm7_ext_codes
gsm7_ext_codes-table_ok = refl

is_some-cases : (o : Option ℕ) → is_some o ≡ true → (v : ℕ) × (o ≡ some v)
is_some-cases none h = cc
is_some-cases (some v) h = (v, refl)

map_has-table_ok :
    (m : List (Str × ℕ)) (k : Str) → table_ok m ≡ true → map_has m k ≡ true → is_basic_unit k ≡ true
unfolding map_has
map_has-table_ok m k t h =
    let found = is_some-cases (map_get m k) h in (map_get-table_ok m k found.0 t found.1).0

-- A character with a septet cost is one code unit below the surrogates, and costs 1 or 2.
pub gsm7_cost-some :
    (ch : Str) (c : ℕ) → gsm7_cost ch ≡ some c → (is_basic_unit ch ≡ true) × (1 ≤ c) × (c ≤ 2)
unfolding gsm7_cost
gsm7_cost-some ch c h = ground (
  arith,
  map_has-table_ok gsm7_codes ch gsm7_codes-table_ok,
  map_has-table_ok gsm7_ext_codes ch gsm7_ext_codes-table_ok,
)
