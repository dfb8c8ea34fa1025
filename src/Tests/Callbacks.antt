-- ===== src/Tests/Callbacks.antt =====
-- The callbacks of utils/webhook.js and config/webhook.config.js on concrete inputs.
use modem_sms_gateway.Prelude.{
  ℕ, ◌≡◌, ◌⊎◌, ◌↔◌, ◌++◌, refl, true, false, [], ◌∷◌, Option, none, some, Str, codes, is_empty, All,
  trim, ◌+◌, ◌&&◌, ap₂, arith, leb, str_eq, if◌then◌else◌,
}
use modem_sms_gateway.Store.LogStore.{Entry}
use modem_sms_gateway.Webhook.Url.{
  Url, parse_allowed_hosts, split_comma_from, clean_hosts, is_allowed_url, url_allowed, member,
  MayCall, is_allowed_url_lem,
}
use modem_sms_gateway.Webhook.Payload.{sent_status, should_notify, is_terminal_status}
use modem_sms_gateway.Webhook.Sender.{
  Platform, Config, Delivery, DeliveryQueue, enqueue_webhook, add_delivery, delivery_for, answered,
  failed, delivered, dropped, retried, deliver,
}
use modem_sms_gateway.Webhook.Laws.{
  IsDue, due_delivery, IsOk, IsRejection, enqueue_webhook_lem, deliver_lem,
}
use modem_sms_gateway.Tests.Tables.{list_queue}

-- Lower case of the ASCII letters.
abbrev pub lower_code : ℕ → ℕ
lower_code c = if leb 65 c && leb c 90 then c + 32 else c

abbrev pub lower : Str → Str
lower [] = []
lower (c ∷ s) = lower_code c ∷ lower s

lower_twice : (s : Str) → lower (lower s) ≡ lower s
lower_twice [] = refl
lower_twice (c ∷ s) = ap₂ (λ a b. a ∷ b) (once c) (lower_twice s)
  where
    once : (c : ℕ) → lower_code (lower_code c) ≡ lower_code c
    once c = ground arith

abbrev hosts : Str
hosts = codes " Hooks.test, ,b.test"

parse_allowed_hosts_two : parse_allowed_hosts lower hosts ≡ codes "hooks.test" ∷ codes "b.test" ∷ []
unfolding parse_allowed_hosts split_comma_from clean_hosts trim
parse_allowed_hosts_two = refl

abbrev pub hook : Str
hook = codes "https://hooks.test/sms"

-- A parser that knows one URL.
abbrev pub parse_hook : Str → Option Url
parse_hook s =
    if str_eq s hook
    then some (record { protocol = codes "https:"; hostname = codes "hooks.test" })
    else none

is_allowed_url_lem_example :
    All (λ h. (is_empty h ≡ false) × (lower h ≡ h)) (parse_allowed_hosts lower hosts)
    × ((is_allowed_url lower parse_hook hook (parse_allowed_hosts lower hosts) ≡ true) ↔ (
        (u : Url) × (parse_hook hook ≡ some u) × MayCall lower u (parse_allowed_hosts lower hosts)))
is_allowed_url_lem_example = is_allowed_url_lem lower lower_twice parse_hook hook hosts

abbrev pub platform : Platform
platform = record {
  lower = lower;
  parse_url = parse_hook;
  hmac = λ k s. k;
  stringify = λ p. p.status;
}

abbrev pub config : Config
config = record {
  signing_secret = codes "secret";
  default_url = hook;
  send_intermediate = false;
  allowed_hosts = codes "hooks.test" ∷ [];
}

abbrev entry_sent : Entry
entry_sent = record {
  id = codes "log-1";
  timestamp = codes "2024-01-01";
  to = codes "+99360123456";
  message = codes "hi";
  project_name = none;
  ip = none;
  status = sent_status;
  error = none;
  sent_at = some (codes "2024-01-02");
  reference = none;
  modem_id = some (codes "modem-1");
  client_ref = none;
  callback_url = none;
}

abbrev queue : DeliveryQueue
queue = list_queue Delivery

enqueue_webhook_one :
    enqueue_webhook queue platform config (some entry_sent) (some 0) (codes "now") []
    ≡ due_delivery config entry_sent (some 0) (codes "now") ∷ []
unfolding enqueue_webhook add_delivery delivery_for should_notify is_terminal_status is_allowed_url
    url_allowed member str_eq
enqueue_webhook_one = refl

enqueue_webhook_lem_example :
    (IsDue platform config entry_sent
      × ((queue.jobs
              (enqueue_webhook queue platform config (some entry_sent) (some 0) (codes "now") [])
            ≡ [] ++ due_delivery config entry_sent (some 0) (codes "now") ∷ [])
          ⊎ (enqueue_webhook queue platform config (some entry_sent) (some 0) (codes "now") [] ≡ [])
            × (queue.add (due_delivery config entry_sent (some 0) (codes "now")) [] ≡ none)))
    ⊎ (¬ IsDue platform config entry_sent)
      × (enqueue_webhook queue platform config (some entry_sent) (some 0) (codes "now") [] ≡ [])
enqueue_webhook_lem_example =
    enqueue_webhook_lem platform config entry_sent (some 0) (codes "now") queue []

deliver_lem_example :
    ((deliver (answered 503) ≡ retried) ↔ (
      (answered 503 ≡ failed)
      ⊎ ((code : ℕ) × (answered 503 ≡ answered code) × (¬ IsOk code) × (¬ IsRejection code))))
    × ((code : ℕ)
        → (deliver (answered 503) ≡ delivered code) ↔ ((answered 503 ≡ answered code) × IsOk code))
    × ((code : ℕ)
        → (deliver (answered 503) ≡ dropped code)
          ↔ ((answered 503 ≡ answered code) × IsRejection code))
deliver_lem_example = deliver_lem (answered 503)
