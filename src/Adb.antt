-- ===== src/Adb.antt =====
-- utils/adb.js: the device's replies, `sendOne` and `sendSMS`, `refreshState` and `ping`. What becomes
-- of each adb command is given in advance; what is run is kept in a log.
pub mod Shell
pub mod Words
pub mod Parts
pub mod Bridge
use modem_sms_gateway.Prelude.{
  ℕ, suc, ◌+◌, Bool, true, false, not, ◌&&◌, ◌||◌, List, [], ◌∷◌, ◌++◌, Option, none, some, Str,
  codes, length, take, ltb, leb, ◌==◌, if◌then◌else◌, trim, is_space, starts_with, str_eq, decimal,
}
use modem_sms_gateway.Prelude.Actions.{
  Failure, Result, ok, err, Action, pure, throw, bind_from, ◌>>=◌, ◌>>◌, plain_error,
}
use modem_sms_gateway.Encoding.Charset.{phone_re}
use modem_sms_gateway.Encoding.Split.{Info, analyze_message, split_message}
use modem_sms_gateway.Serial.Session.{too_long}
use modem_sms_gateway.Adb.Shell.{remote_command}

-- The end of `execFile`: what the command printed, or an error's message, its timeout included.
pub data Reply : Type 0 where
  printed : Str → Reply
  failed : Str → Reply

-- A shell command and its reply.
pub record Run : Type 0 where
  pub command : Str
  pub reply : Reply

pub record Device : Type 0 where
  pub pending : List Reply
  pub log : List Run

abbrev pub D : Type 0 → Type 0
D A = Action Device A

-- After the last reply that is given in advance the device is gone.
abbrev pub first_reply : List Reply → Reply
first_reply [] = failed (codes "error: no devices found")
first_reply (r ∷ rs) = r

abbrev pub other_replies : List Reply → List Reply
other_replies [] = []
other_replies (r ∷ rs) = rs

abbrev pub output_of : Reply → Result Str
output_of (printed out) = ok out
output_of (failed message) = err (plain_error (codes "adb shell failed: " ++ trim message))

-- `adb(['shell', remote])`.
unfoldable pub run_shell : Str → D Str
unfolding trim
run_shell command d = (
  record {
    pending = other_replies d.pending;
    log = d.log ++ record { command = command; reply = first_reply d.pending } ∷ [];
  },
  output_of (first_reply d.pending),
)

-- `s.replace(/\s+/g, '')`.
unfoldable pub without_spaces : Str → Str
unfolding is_space
without_spaces [] = []
without_spaces (c ∷ s) = (if is_space c then [] else c ∷ []) ++ without_spaces s

-- A letter, a digit or `_`.
abbrev pub is_word : ℕ → Bool
is_word c =
    (leb b'0' c && leb c b'9')
    || (leb b'A' c && leb c b'Z')
    || (leb b'a' c && leb c b'z')
    || c == b'_'

abbrev pub starts_word : Str → Bool
starts_word [] = false
starts_word (c ∷ s) = is_word c

unfoldable pub skip_zeros : Str → Str
skip_zeros [] = []
skip_zeros (c ∷ s) = let rest = skip_zeros s in if c == b'0' then rest else c ∷ s

-- `0+\b` at the front: zeros up to the end of a word.
unfoldable pub zeros_end : Str → Bool
unfolding skip_zeros
zeros_end [] = false
zeros_end (c ∷ s) = c == b'0' && not (starts_word (skip_zeros s))

abbrev pub after_prefix : Str → Str → Option Str
after_prefix [] s = some s
after_prefix (p ∷ ps) [] = none
after_prefix (p ∷ ps) (c ∷ s) = let rest = after_prefix ps s in if p == c then rest else none

abbrev pub zeros_at : Option Str → Bool
zeros_at none = false
zeros_at (some s) = zeros_end s

-- `/Parcel\(0+\b/.test(s)`.
unfoldable pub void_parcel : Str → Bool
unfolding zeros_end
void_parcel [] = false
void_parcel (c ∷ s) = zeros_at (after_prefix (codes "Parcel(") (c ∷ s)) || void_parcel s

unfoldable pub is_void_reply : Str → Bool
unfolding void_parcel without_spaces
is_void_reply out = void_parcel (without_spaces out)

-- `service` is `callingPkg`, `txn` is `smsTxn`.
module _ (txn : ℕ) (service : Str) where
  abbrev pub check_reply : Str → Bool → D (Unit {0})
  check_reply out true = pure tt
  check_reply out false = throw (
      plain_error
        (codes "SMS not accepted by device (isms reply: " ++ (take 120 (trim out) ++ codes ")")))

  unfoldable pub send_one : Str → Str → D (Unit {0})
  unfolding run_shell is_void_reply trim
  send_one to message = do
    out ← run_shell (remote_command txn service to message)
    check_reply out (is_void_reply out)

  unfoldable pub send_parts : Str → List Str → D (Unit {0})
  unfolding send_one
  send_parts to [] = pure tt
  send_parts to (p ∷ ps) = do send_one to p; send_parts to ps

  abbrev pub parts_of : Str → List Str
  parts_of message =
      if (analyze_message message).segments == 1 then message ∷ [] else split_message message

  abbrev pub reference : List Str → Str
  reference parts =
      codes "adb:sent"
      ++ (if ltb 1 (length parts)
          then codes ":" ++ (decimal (length parts) ++ codes "parts")
          else [])

  unfoldable pub send_sms : Str → Str → D Str
  unfolding send_parts
  send_sms to message =
      if not (phone_re to)
      then throw (plain_error (codes "Invalid recipient number: " ++ to))
      else (if not (analyze_message message).ok
          then throw (plain_error (too_long (analyze_message message)))
          else (do send_parts to (parts_of message); pure (reference (parts_of message))))

-- `refreshState` on the end of `adb(['get-state'], 5000)`, and `ping`.
unfoldable pub refresh_state : Reply → Bool
unfolding trim
refresh_state (printed out) = str_eq (trim out) (codes "device")
refresh_state (failed message) = false
