-- ===== src/Webhook/Payload.antt =====
-- utils/webhook.js: which status changes are reported, the callback body and its signature.
use modem_sms_gateway.Prelude.{
  ℕ, Bool, true, false, ◌||◌, ◌++◌, Option, Str, codes, if◌then◌else◌, str_eq,
}
use modem_sms_gateway.Store.LogStore.{Entry}

abbrev pub pending_status : Str
pending_status = codes "pending"

abbrev pub sent_status : Str
sent_status = codes "sent"

abbrev pub failed_status : Str
failed_status = codes "failed"

abbrev pub unconfirmed_status : Str
unconfirmed_status = codes "unconfirmed"

abbrev pub retrying_status : Str
retrying_status = codes "retrying"

-- `TERMINAL_STATUSES.has(status)`.
unfoldable pub is_terminal_status : Str → Bool
is_terminal_status status =
    str_eq status sent_status || str_eq status failed_status || str_eq status unconfirmed_status

unfoldable pub should_notify : Str → Bool → Bool
unfolding is_terminal_status
should_notify status send_intermediate =
    if is_terminal_status status
    then true
    else (if str_eq status retrying_status then send_intermediate else false)

pub record Payload : Type 0 where
  pub event : Str
  pub log_id : Str
  pub client_ref : Option Str
  pub to : Str
  pub project_name : Option Str
  pub status : Str
  pub reference : Option Str
  pub modem_id : Option Str
  pub error : Option Str
  pub sent_at : Option Str
  pub occurred_at : Str
  pub attempt : Option ℕ

unfoldable pub build_payload : Entry → Str → Option ℕ → Payload
build_payload entry occurred_at attempt = record {
  event = codes "sms.status";
  log_id = entry.id;
  client_ref = entry.client_ref;
  to = entry.to;
  project_name = entry.project_name;
  status = entry.status;
  reference = entry.reference;
  modem_id = entry.modem_id;
  error = entry.error;
  sent_at = entry.sent_at;
  occurred_at = occurred_at;
  attempt = attempt;
}

-- `hmac` is HMAC-SHA256 in hexadecimal, of a key and a text.
unfoldable pub sign : (Str → Str → Str) → Str → Str → Str → Str
sign hmac secret timestamp raw_body = hmac secret (timestamp ++ (codes "." ++ raw_body))
