-- ===== src/Tests/Requests.antt =====
-- router/router.js on concrete requests.
use modem_sms_gateway.Prelude.{
  if◌then◌else◌, ◌++◌, inl, inr, List, [], ◌∷◌, ℕ, ◌≡◌, ◌≤◌, refl, true, false, [], none, some, Str,
  codes, length, is_empty, trim, str_eq,
}
use modem_sms_gateway.Encoding.Charset.{phone_re, chars, gsm7_cost, gsm7_codes}
use modem_sms_gateway.Encoding.Split.{Info, analyze_message, count_septets}
use modem_sms_gateway.Pool.{Modem}
use modem_sms_gateway.Webhook.Url.{is_allowed_url}
use modem_sms_gateway.Worker.Send.{SendJob, choose_modem}
use modem_sms_gateway.Router.Validate.{
  absent, text, Body, SendRequest, valid, has_control, validate_send,
}
use modem_sms_gateway.Router.Validate.Laws.{validate_send_lem}
use modem_sms_gateway.Serial.Listing.{Received}
use modem_sms_gateway.Router.Messages.{
  Fetched, fetched, broken, collected, all_errors, handle_messages, handle_messages_lem,
}
use modem_sms_gateway.Store.InboxStore.{Inbound, tagged}
use modem_sms_gateway.Router.Send.{Call, Gateway, handle_send}
use modem_sms_gateway.Router.Send.Laws.{Ends, handle_send_lem}
use modem_sms_gateway.Tests.Tables.{list_queue}
use modem_sms_gateway.Tests.Callbacks.{parse_hook, hook, lower, platform, config}
use modem_sms_gateway.Tests.Sends.{two_modems, modem_2, updates, db, queue}

abbrev analyze : Modem → Str → Info
analyze m message = analyze_message message

abbrev body : Body
body = record {
  to = text (codes " +99360123456 ");
  message = text (codes "hi");
  project_name = text (codes "shop");
  modem = absent;
  client_ref = text (codes " order-7 ");
  callback_url = text hook;
}

abbrev request : SendRequest
request = record {
  to = codes "+99360123456";
  message = codes "hi";
  project_name = codes "shop";
  modem = none;
  client_ref = some (codes "order-7");
  callback_url = some hook;
}

request_valid : validate_send lower parse_hook [] analyze two_modems body ≡ valid request
unfolding validate_send phone_re trim is_allowed_url str_eq analyze_message count_septets chars
    gsm7_cost gsm7_codes
request_valid = refl

validate_send_lem_example :
    (phone_re request.to ≡ true)
    × (is_empty (trim request.message) ≡ false)
    × (has_control request.message ≡ false)
    × (is_empty (trim request.project_name) ≡ false)
    × ((s : Str) → request.client_ref ≡ some s → (is_empty s ≡ false) × (length s ≤ 200))
    × ((url : Str)
        → request.callback_url ≡ some url
        → is_allowed_url lower parse_hook url [] ≡ true)
    × ((rr : ℕ) (m : Modem)
        → (choose_modem two_modems rr request.modem).0 ≡ some m
        → (analyze m request.message).ok ≡ true)
validate_send_lem_example =
    validate_send_lem lower parse_hook [] analyze two_modems body request request_valid

abbrev call : Call
call = record {
  id = codes "log-9";
  now = codes "2024-01-01";
  ip = none;
  error_text = codes "redis is down";
}

abbrev gateway : Gateway db (list_queue SendJob) queue platform config
gateway = record { log = []; sends = []; webhooks = [] }

handle_send_lem_example :
    Ends db
      (list_queue SendJob)
      queue
      platform
      config
      call
      request
      gateway
      (handle_send db (list_queue SendJob) queue platform config call request gateway)
handle_send_lem_example =
    handle_send_lem db (list_queue SendJob) queue platform config updates call request gateway

abbrev mail : Received
mail = record {
  status = codes "REC UNREAD";
  from = codes "+99361";
  date = codes "24/01/02";
  text = codes "hello";
}

-- The first modem is dead, the second has a message.
abbrev fetch : Modem → Fetched
fetch m = if m.connected then fetched (mail ∷ []) else broken (codes "Modem is not connected")

handle_messages_lem_example :
    (before after : List Inbound) × (handle_messages fetch two_modems none
      ≡ collected
          (before ++ (tagged modem_2.id (mail ∷ []) ++ after))
          (all_errors fetch two_modems))
handle_messages_lem_example =
    handle_messages_lem fetch two_modems modem_2 (mail ∷ []) (inr (inl refl)) refl
