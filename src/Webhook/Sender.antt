-- ===== src/Webhook/Sender.antt =====
-- config/webhook.config.js: callbacks are queued, signed and posted. What the environment configures
-- and the platform's functions are the parameters.
use modem_sms_gateway.Prelude.{
  ℕ, Bool, not, ◌&&◌, List, [], ◌∷◌, ◌++◌, Option, none, some, Str, codes, leb, ltb, ◌==◌,
  if◌then◌else◌, or_else, is_empty,
}
use modem_sms_gateway.Store.LogStore.{Entry}
use modem_sms_gateway.Webhook.Url.{Url, is_allowed_url}
use modem_sms_gateway.Webhook.Payload.{Payload, should_notify, build_payload, sign}
use modem_sms_gateway.Webhook.Queue.{JobQueue}

pub record Platform : Type 0 where
  pub lower : Str → Str
  pub parse_url : Str → Option Url
  pub hmac : Str → Str → Str
  pub stringify : Payload → Str

pub record Config : Type 0 where
  pub signing_secret : Str
  pub default_url : Str
  pub send_intermediate : Bool
  pub allowed_hosts : List Str

-- The data of a `deliver` job.
pub record Delivery : Type 0 where
  pub callback_url : Str
  pub payload : Payload

abbrev pub DeliveryQueue : Type 1
DeliveryQueue = JobQueue Delivery

-- `a || b` of two texts.
abbrev pub or_text : Option Str → Str → Str
or_text none d = d
or_text (some []) d = d
or_text (some (c ∷ s)) d = c ∷ s

-- The job for an entry, or `none` where `enqueueWebhook` returns without adding one.
unfoldable pub delivery_for : Platform → Config → Entry → Option ℕ → Str → Option Delivery
delivery_for p c entry attempt now =
    let url = or_text entry.callback_url c.default_url in
    if is_empty entry.status
    then none
    else (if not (should_notify entry.status c.send_intermediate)
        then none
        else (if is_empty url
            then none
            else (if not (is_allowed_url p.lower p.parse_url url c.allowed_hosts)
                then none
                else some
                    (record { callback_url = url; payload = build_payload entry now attempt }))))

module _ (queue : DeliveryQueue) where
  -- An exception of the queue is caught and logged.
  unfoldable pub add_delivery : Option Delivery → queue.State → queue.State
  add_delivery none q = q
  add_delivery (some d) q = or_else (queue.add d q) q

  -- `enqueueWebhook(entry, { attempt })` at the time `now`.
  unfoldable pub enqueue_webhook :
      Platform → Config → Option Entry → Option ℕ → Str → queue.State → queue.State
  unfolding add_delivery
  enqueue_webhook p c none attempt now q = q
  enqueue_webhook p c (some entry) attempt now q =
      add_delivery (delivery_for p c entry attempt now) q

unfoldable pub is_permanent : ℕ → Bool
is_permanent code = leb 400 code && (ltb code 500 && (not (code == 408) && not (code == 429)))

pub record Header : Type 0 where
  pub name : Str
  pub value : Str

-- The headers of one POST at the time `timestamp`.
unfoldable pub delivery_headers : Platform → Config → Str → Str → List Header
delivery_headers p c timestamp body =
    let content : Header = record {
      name = codes "content-type";
      value = codes "application/json";
    } in
    if is_empty c.signing_secret
    then content ∷ []
    else (content
        ∷ record { name = codes "x-gateway-timestamp"; value = timestamp }
        ∷ record {
          name = codes "x-gateway-signature";
          value = codes "sha256=" ++ sign p.hmac c.signing_secret timestamp body;
        }
        ∷ [])

-- What `fetch` gives: a status code, or an exception (network error or timeout).
pub data Response : Type 0 where
  answered : ℕ → Response
  failed : Response

-- How the job of one delivery ends: completed, completed but dropped, or failed and to be retried.
pub data DeliveryResult : Type 0 where
  delivered : ℕ → DeliveryResult
  dropped : ℕ → DeliveryResult
  retried : DeliveryResult

-- `res.ok` is a status from 200 to 299.
unfoldable pub deliver : Response → DeliveryResult
unfolding is_permanent
deliver failed = retried
deliver (answered code) =
    if leb 200 code && ltb code 300
    then delivered code
    else (if is_permanent code then dropped code else retried)
