-- ===== src/Zte/Send.antt =====
-- utils/zte-http.js: `sendSMS` and its polling, and `ping`.
pub mod Stage
pub mod Verdict
pub mod Rounds
use modem_sms_gateway.Prelude.{
  ℕ, zero, suc, ◌+◌, ◌*◌, Bool, true, false, not, ◌||◌, List, [], ◌∷◌, ◌++◌, Option, none, some,
  Str, codes, decimal, ltb, ◌==◌, if◌then◌else◌, is_empty,
}
use modem_sms_gateway.Prelude.Actions.{
  Failure, Result, ok, err, Action, pure, throw, bind_from, ◌>>=◌, ◌>>◌, plain_error,
}
use modem_sms_gateway.Encoding.Charset.{phone_re}
use modem_sms_gateway.Encoding.Hex.{ucs2_hex}
use modem_sms_gateway.Encoding.Split.{Info}
use modem_sms_gateway.Zte.Settings.{Settings, analyze_ucs2}
use modem_sms_gateway.Zte.Session.{
  Value, missing, null_value, flag, number, text, is_text, Json, Stick, Z, sleep, field, get_cmd,
  set_cmd,
}

abbrev pub send_poll_timeout_ms : ℕ
send_poll_timeout_ms = 60000

abbrev pub poll_interval_ms : ℕ
poll_interval_ms = 1500

-- `a ?? b`.
abbrev pub value_or : Value → Value → Value
value_or missing b = b
value_or null_value b = b
value_or (flag x) b = flag x
value_or (number n) b = number n
value_or (text s) b = text s

pub data Status : Type 0 where
  is_sent has_failed undecided : Status

unfoldable pub status_of : Value → Status
unfolding is_text
status_of v =
    if is_text v (codes "3")
    then is_sent
    else (if is_text v (codes "2") then has_failed else undecided)

-- The status that a reply to the poll tells.
unfoldable pub read_status : Json → Z Status
unfolding field status_of
read_status st = do
  result ← field (codes "sms_cmd_status_result") st
  info ← field (codes "sms_cmd_status_info") st
  pure (status_of (value_or result info))

abbrev pub confirm_error : Failure
confirm_error = record {
  message = codes "Timed out waiting for SMS send confirmation";
  timeout = false;
  confirm_timeout = true;
}

abbrev pub sent_reference : Str
sent_reference = codes "zte-http:sent"

-- `rest` is the next round of the loop.
abbrev pub decide : Status → Z Str → Z Str
decide is_sent rest = pure sent_reference
decide has_failed rest = throw (plain_error (codes "Modem reported SMS send failure"))
decide undecided rest = rest

unfoldable pub too_long_ucs2 : Info → Str
too_long_ucs2 info =
    codes "Message too long: "
    ++ (decimal info.length
        ++ (codes "/" ++ (decimal info.max_length ++ codes " (UCS2, max 3 SMS parts)")))

module _ (settings : Settings) where
  unfoldable pub poll : Z Status
  unfolding sleep get_cmd read_status
  poll = do
    sleep poll_interval_ms
    st ← get_cmd settings (codes "sms_cmd_status_info") (codes "&sms_cmd=4")
    read_status st

  -- `before` is the loop's condition.
  abbrev pub poll_round : Z Str → Bool → Z Str
  poll_round rest true = poll >>= λ status. decide status rest
  poll_round rest false = throw confirm_error

  unfoldable pub poll_from : ℕ → ℕ → Z Str
  unfolding poll
  poll_from zero deadline s = throw confirm_error s
  poll_from (suc fuel) deadline s = poll_round (poll_from fuel deadline) (ltb s.clock deadline) s

  -- A round takes at least 1500 ms, so 40 rounds for each 60000 ms do.
  unfoldable pub poll_status : ℕ → Z Str
  unfolding poll_from
  poll_status segments s = poll_from (40 * segments) (s.clock + send_poll_timeout_ms * segments) s

  abbrev pub sms_params : Str → Str → Str → List (Str × Str)
  sms_params time to message =
      (codes "notCallback", codes "true")
      ∷ (codes "Number", to)
      ∷ (codes "sms_time", time)
      ∷ (codes "MessageBody", ucs2_hex message)
      ∷ (codes "ID", codes "-1")
      ∷ (codes "encode_type", codes "UNICODE")
      ∷ []

  unfoldable pub submit : Str → Str → Str → Z Json
  unfolding set_cmd
  submit time to message = set_cmd settings (codes "SEND_SMS") (sms_params time to message)

  -- `time` is `smsTime()`.
  unfoldable pub send_sms : Str → Str → Str → Z Str
  unfolding submit poll_status too_long_ucs2
  send_sms time to message =
      if not (phone_re to)
      then throw (plain_error (codes "Invalid recipient number: " ++ to))
      else (if not (analyze_ucs2 message).ok
          then throw (plain_error (too_long_ucs2 (analyze_ucs2 message)))
          else submit time to message >> poll_status (analyze_ucs2 message).segments)

-- `Boolean(value)`.
unfoldable pub truthy : Value → Bool
truthy missing = false
truthy null_value = false
truthy (flag b) = b
truthy (number n) = not (n == 0)
truthy (text s) = not (is_empty s)

module _ (settings : Settings) where
  abbrev pub says_alive : Json → Z Bool
  says_alive Json.null_json = pure false
  says_alive (Json.object b) = do
    model ← field (codes "modem_model") (Json.object b)
    state ← field (codes "modem_main_state") (Json.object b)
    pure (truthy model || truthy state)

  unfoldable pub ping : Z Bool
  unfolding get_cmd field truthy
  ping = do info ← get_cmd settings (codes "modem_model,modem_main_state") []; says_alive info
