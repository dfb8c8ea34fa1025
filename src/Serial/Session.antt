-- ===== src/Serial/Session.antt =====
-- utils/modem.js: how an SMS is sent, as commands and answers. What the port does with each command is
-- given in advance; what is written, and how it is answered, is kept in a log.
pub mod Audit
pub mod Honest
use modem_sms_gateway.Prelude.{
  decimal, decimal_from, ℕ, zero, suc, ◌+◌, ◌/◌, ◌%◌, Bool, true, false, not, List, [], ◌∷◌, ◌++◌,
  Option, none, some, Str, codes, length, ◌==◌, if◌then◌else◌, is_empty, starts_with, ltb,
}
use modem_sms_gateway.Prelude.Actions.{
  Failure, Result, ok, err, Action, pure, throw, bind_from, ◌>>=◌, ◌>>◌, catch_from, try_catch,
  try_finally, plain_error,
}
use modem_sms_gateway.Encoding.Charset.{phone_re}
use modem_sms_gateway.Encoding.Split.{Encoding, gsm, ucs2, Info, analyze_message, split_message}
use modem_sms_gateway.Encoding.Hex.{ucs2_hex}
use modem_sms_gateway.Serial.Listing.{Received}
use modem_sms_gateway.Pdu.Build.{Pdu, ConcatArgs, build_concat_pdus}

-- What becomes of a command: lines up to `OK` or the prompt; an error line; no answer before the timer
-- fires; an end without an answer, with a text, when the port closes, the driver shuts down or the
-- write fails; or no connection to write it to.
pub data Reply : Type 0 where
  replied : List Str → Reply
  refused : Str → Reply
  no_answer : Reply
  dropped : Str → Reply
  offline : Reply

-- A command and its reply, a text without a reply, or messages that were handed to the database.
pub data Exchange : Type 0 where
  exchange : Str → Reply → Exchange
  wrote : Str → Exchange
  saved : List Received → Exchange

pub record Io : Type 0 where
  pub pending : List Reply
  pub log : List Exchange

abbrev pub M : Type 0 → Type 0
M A = Action Io A

unfoldable pub settle_reply : Str → Str → Reply → Io → Io × Result (List Str)
settle_reply write label (replied lines) io =
    (record io { log = io.log ++ exchange write (replied lines) ∷ [] }, ok lines)
settle_reply write label (refused message) io =
    (record io { log = io.log ++ exchange write (refused message) ∷ [] }, err (plain_error message))
settle_reply write label (dropped message) io =
    (record io { log = io.log ++ exchange write (dropped message) ∷ [] }, err (plain_error message))
settle_reply write label no_answer io = (
  record io { log = io.log ++ exchange write no_answer ∷ [] },
  err (record {
    message = codes "Timed out waiting for modem response to " ++ label;
    timeout = true;
    confirm_timeout = false;
  }),
)
settle_reply write label offline io = (io, err (plain_error (codes "Modem is not connected")))

-- After the last reply that is given in advance the port is gone.
abbrev pub first_reply : List Reply → Reply
first_reply [] = offline
first_reply (r ∷ rs) = r

abbrev pub other_replies : List Reply → List Reply
other_replies [] = []
other_replies (r ∷ rs) = rs

-- `transact({ write, label })`.
unfoldable pub transact : Str → Str → M (List Str)
unfolding settle_reply
transact write label io =
    settle_reply write label (first_reply io.pending)
      (record io { pending = other_replies io.pending })

-- An AT command with its carriage return.
abbrev pub command : Str → Str → M (List Str)
command text label = transact (text ++ 0x0d ∷ []) label

abbrev pub push : Str → M (Unit {0})
push text io = (record io { log = io.log ++ wrote text ∷ [] }, ok tt)

unfoldable pub find_line : Str → List Str → Option Str
find_line prefix [] = none
find_line prefix (l ∷ ls) = if starts_with l prefix then some l else find_line prefix ls

-- `if (err.code === 'TIMEOUT') err.confirmTimeout = true`.
unfoldable pub mark_confirm : Failure → Failure
mark_confirm e = if e.timeout then record e { confirm_timeout = true } else e

unfoldable pub submit_body : Str → Str → Str → M (Option Str)
unfolding find_line mark_confirm
submit_body at_command label body = do
  try_catch (command at_command label) (λ e. push (0x1b ∷ []) >> throw e)
  lines ←
      try_catch (transact (body ++ 0x1a ∷ []) (label ++ codes " body"))
        (λ e. throw (mark_confirm e))
  pure (find_line (codes "+CMGS") lines)

abbrev pub set_center : Str → M (Unit {0})
set_center [] = pure tt
set_center (c ∷ s) = do
  command (codes "AT+CSCA=\"" ++ (c ∷ s ++ codes "\"")) (codes "CSCA")
  pure tt

abbrev pub set_encoding : Encoding → M (Unit {0})
set_encoding ucs2 = do
  command (codes "AT+CSCS=\"UCS2\"") (codes "CSCS")
  command (codes "AT+CSMP=17,167,0,8") (codes "CSMP")
  pure tt
set_encoding gsm = do
  command (codes "AT+CSCS=\"GSM\"") (codes "CSCS")
  command (codes "AT+CSMP=17,167,0,0") (codes "CSMP")
  pure tt

abbrev pub encoded_as : Encoding → Str → Str
encoded_as ucs2 text = ucs2_hex text
encoded_as gsm text = text

unfoldable pub send_single : Str → Str → Str → Encoding → M (Option Str)
unfolding submit_body
send_single smsc to message encoding = do
  command (codes "AT+CMGF=1") (codes "CMGF")
  set_center smsc
  set_encoding encoding
  submit_body (codes "AT+CMGS=\"" ++ (encoded_as encoding to ++ codes "\"")) (codes "CMGS")
      (encoded_as encoding message)

unfoldable pub send_pdus : List Pdu → M (List (Option Str))
unfolding submit_body decimal_from
send_pdus [] = pure []
send_pdus (p ∷ ps) = do
  ref ← submit_body (codes "AT+CMGS=" ++ decimal p.length) (codes "CMGS (PDU)") p.pdu
  refs ← send_pdus ps
  pure (ref ∷ refs)

-- `refs.filter(Boolean).join('; ') || null`.
unfoldable pub join_refs : List (Option Str) → Option Str
join_refs [] = none
join_refs (none ∷ refs) = join_refs refs
join_refs (some [] ∷ refs) = join_refs refs
join_refs (some (c ∷ s) ∷ refs) = elim (join_refs refs) [
  | none ↦ some (c ∷ s)
  | some t ↦ some (c ∷ s ++ (codes "; " ++ t))
]

-- The error of the PDU builder leaves out the character.
unfoldable pub send_parts : Option (List Pdu) → M (Option Str)
unfolding send_pdus join_refs
send_parts none = throw (plain_error (codes "Character not representable in GSM-7"))
send_parts (some pdus) = do
  command (codes "AT+CMGF=0") (codes "CMGF=0")
  try_finally (do refs ← send_pdus pdus; pure (join_refs refs))
      (command (codes "AT+CMGF=1") (codes "CMGF=1"))

abbrev pub center : Str → Option Str
center [] = none
center (c ∷ s) = some (c ∷ s)

-- `ref` is `crypto.randomInt(256)`.
unfoldable pub send_multipart : Str → ℕ → Str → Str → Encoding → M (Option Str)
unfolding send_parts
send_multipart smsc ref to message encoding = send_parts (
    build_concat_pdus (record {
      to = to;
      parts = split_message message;
      encoding = encoding;
      ref = ref;
      smsc = center smsc;
    }))

abbrev pub encoding_name : Encoding → Str
encoding_name gsm = codes "GSM"
encoding_name ucs2 = codes "UCS2"

unfoldable pub too_long : Info → Str
unfolding decimal_from
too_long info =
    codes "Message too long: "
    ++ (decimal info.length
        ++ (codes "/"
            ++ (decimal info.max_length
                ++ (codes " (" ++ (encoding_name info.encoding ++ codes ", max 3 SMS parts)")))))

unfoldable pub send_sms : Str → ℕ → Str → Str → M (Option Str)
unfolding send_single send_multipart too_long
send_sms smsc ref to message =
    if not (phone_re to)
    then throw (plain_error (codes "Invalid recipient number: " ++ to))
    else (if not (analyze_message message).ok
        then throw (plain_error (too_long (analyze_message message)))
        else (if (analyze_message message).segments == 1
            then send_single smsc to message (analyze_message message).encoding
            else send_multipart smsc ref to message (analyze_message message).encoding))

-- `initModem`, after the port was opened.
unfoldable pub init_modem : M (Unit {0})
init_modem = do
  command (codes "AT") (codes "AT")
  command (codes "ATE0") (codes "ATE0")
  command (codes "AT+CMGF=1") (codes "CMGF")
  pure tt

unfoldable pub ping : M Bool
ping = do command (codes "AT") (codes "AT (ping)"); pure true
