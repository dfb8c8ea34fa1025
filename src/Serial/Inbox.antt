-- ===== src/Serial/Inbox.antt =====
-- utils/modem.js: `getMessages`, which reads, saves and then deletes the messages in the modem.
pub mod Laws
pub mod Spec
pub mod Listed
pub mod Sync
use modem_sms_gateway.Prelude.{
  decimal, ℕ, Bool, true, false, List, [], ◌∷◌, ◌++◌, Option, none, some, Str, codes,
}
use modem_sms_gateway.Serial.Listing.{Received, Stored, parse_lines, without_index}
use modem_sms_gateway.Prelude.Actions.{Failure, Result, ok, err, pure, throw, ◌>>=◌, ◌>>◌}
use modem_sms_gateway.Serial.Session.{Exchange, saved, Io, M, command}

-- The callback: `none` when it is not given; it returns, or throws an error.
abbrev pub Persist : Type 0
Persist = Option (List Received → Option Failure)

-- The end of `await persist(result)`.
unfoldable pub persisted : List Received → Option Failure → M (Unit {0})
persisted messages none io = (record io { log = io.log ++ saved messages ∷ [] }, ok tt)
persisted messages (some e) io = (io, err e)

-- `if (result.length > 0 && persist)`.
unfoldable pub persist_messages : Persist → List Received → M (Unit {0})
unfolding persisted
persist_messages none messages = pure tt
persist_messages (some persist) [] = pure tt
persist_messages (some persist) (m ∷ ms) = persisted (m ∷ ms) (persist (m ∷ ms))

abbrev pub delete_text : ℕ → Str
delete_text index = codes "AT+CMGD=" ++ (decimal index ++ codes ",0")

unfoldable pub delete_messages : List Stored → M (Unit {0})
delete_messages [] = pure tt
delete_messages (m ∷ ms) = do
  command (delete_text m.index) (codes "CMGD " ++ decimal m.index)
  delete_messages ms

-- Up to the parsed list.
unfoldable pub list_messages : M (List Stored)
unfolding parse_lines
list_messages = do
  command (codes "AT+CMGF=1") (codes "CMGF")
  command (codes "AT+CSCS=\"GSM\"") (codes "CSCS")
  command (codes "AT+CPMS=\"SM\",\"SM\",\"SM\"") (codes "CPMS")
  lines ← command (codes "AT+CMGL=\"ALL\"") (codes "CMGL")
  pure (parse_lines lines none)

unfoldable pub save_and_delete : Persist → List Stored → M (List Received)
unfolding persist_messages delete_messages without_index
save_and_delete persist messages = do
  persist_messages persist (without_index messages)
  delete_messages messages
  pure (without_index messages)

unfoldable pub get_messages : Persist → M (List Received)
unfolding list_messages save_and_delete
get_messages persist = do messages ← list_messages; save_and_delete persist messages
