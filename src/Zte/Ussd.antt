-- ===== src/Zte/Ussd.antt =====
-- utils/zte-http.js: `runUssd` and `checkBalance`.
pub mod Fresh
pub mod Rounds
use modem_sms_gateway.Prelude.{
  ℕ, zero, suc, ◌+◌, Bool, true, false, List, [], ◌∷◌, ◌++◌, Option, none, some, Str, codes, ltb,
  str_eq, if◌then◌else◌, is_empty,
}
use modem_sms_gateway.Prelude.Actions.{
  Result, ok, err, Action, pure, throw, bind_from, ◌>>=◌, ◌>>◌, catch_from, try_catch,
}
use modem_sms_gateway.Encoding.Hex.{ucs2_decode}
use modem_sms_gateway.Zte.Settings.{Settings}
use modem_sms_gateway.Zte.Session.{
  Value, missing, null_value, flag, number, text, string_of, Json, Stick, Z, sleep, field, get_cmd,
  set_cmd,
}
use modem_sms_gateway.Zte.Send.{poll_interval_ms, truthy}

abbrev pub ussd_poll_timeout_ms : ℕ
ussd_poll_timeout_ms = 30000

-- `ucs2Decode(data) || data`.
unfoldable pub reply_text : Value → Value
unfolding ucs2_decode
reply_text missing = missing
reply_text null_value = null_value
reply_text (flag b) = flag b
reply_text (number n) = number n
reply_text (text s) = if is_empty (ucs2_decode s) then text s else text (ucs2_decode s)

unfoldable pub is_ready : Value → Bool
unfolding string_of
is_ready v = str_eq (string_of v) (codes "16")

module _ (settings : Settings) where
  unfoldable pub ussd_flag : Z Value
  unfolding sleep get_cmd field
  ussd_flag = do
    sleep poll_interval_ms
    status ← get_cmd settings (codes "ussd_write_flag") []
    field (codes "ussd_write_flag") status

  unfoldable pub ussd_data : Z Value
  unfolding get_cmd field
  ussd_data = do info ← get_cmd settings (codes "ussd_data_info") []; field (codes "ussd_data") info

  -- `rest` is the next round of the loop.
  abbrev pub take_reply : Z (Option Value) → Value → Bool → Z (Option Value)
  take_reply rest reply true = pure (some (reply_text reply))
  take_reply rest reply false = rest

  abbrev pub read_reply : Z (Option Value) → Bool → Z (Option Value)
  read_reply rest true = ussd_data >>= λ reply. take_reply rest reply (truthy reply)
  read_reply rest false = rest

  -- `before` is the loop's condition.
  abbrev pub ussd_round : Z (Option Value) → Bool → Z (Option Value)
  ussd_round rest true = ussd_flag >>= λ status. read_reply rest (is_ready status)
  ussd_round rest false = pure none

  unfoldable pub ussd_from : ℕ → ℕ → Z (Option Value)
  unfolding ussd_flag ussd_data reply_text is_ready
  ussd_from zero deadline s = pure none s
  ussd_from (suc fuel) deadline s = ussd_round (ussd_from fuel deadline) (ltb s.clock deadline) s

  -- A round takes at least 1500 ms, so 20 rounds do.
  unfoldable pub await_reply : Z (Option Value)
  unfolding ussd_from
  await_reply s = ussd_from 20 (s.clock + ussd_poll_timeout_ms) s

  abbrev pub cancel_params : List (Str × Str)
  cancel_params = (codes "USSD_operator", codes "ussd_cancel") ∷ []

  abbrev pub dial_params : Str → List (Str × Str)
  dial_params code =
      (codes "USSD_operator", codes "ussd_send") ∷ (codes "USSD_send_number", code) ∷ []

  unfoldable pub cancel_session : Z (Unit {0})
  unfolding set_cmd sleep
  cancel_session =
      try_catch (set_cmd settings (codes "USSD_PROCESS") cancel_params >> sleep 1000) (λ e. pure tt)

  unfoldable pub run_ussd : Str → Z (Option Value)
  unfolding cancel_session await_reply set_cmd
  run_ussd code = do
    cancel_session
    set_cmd settings (codes "USSD_PROCESS") (dial_params code)
    await_reply

  unfoldable pub check_balance : Z (Option Value)
  unfolding run_ussd
  check_balance = run_ussd settings.balance_code
