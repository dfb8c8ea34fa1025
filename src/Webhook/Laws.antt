-- ===== src/Webhook/Laws.antt =====
-- utils/webhook.js and config/webhook.config.js: when a callback is queued, what it says, and when a
-- delivery is tried again.
use modem_sms_gateway.Prelude.{
  ℕ, ◌≤◌, ◌<◌, ◌≡◌, ◌≢◌, ◌↔◌, ◌⊎◌, refl, ap, ◌∙◌, inl, inr, Bool, true, false, [], ◌∷◌, ◌++◌,
  Option, none, some, arith, Str, str_eq_iff, or_else, is_empty, Option-cases,
}
use modem_sms_gateway.Store.LogStore.{Entry}
use modem_sms_gateway.Webhook.Url.{is_allowed_url}
use modem_sms_gateway.Webhook.Payload.{
  should_notify, build_payload, sent_status, failed_status, unconfirmed_status, retrying_status,
}
use modem_sms_gateway.Webhook.Sender.{
  Platform, Config, Delivery, DeliveryQueue, or_text, delivery_for, add_delivery, enqueue_webhook,
  Response, answered, failed, delivered, dropped, retried, deliver,
}

-- The statuses that are reported: the final ones, and `retrying` when that is configured.
abbrev pub Reported : Str → Bool → Type 0
Reported status send_intermediate =
    (status ≡ sent_status)
    ⊎ (status ≡ failed_status)
    ⊎ (status ≡ unconfirmed_status)
    ⊎ ((status ≡ retrying_status) × (send_intermediate ≡ true))

should_notify-Reported :
    (status : Str) (send_intermediate : Bool)
    → (should_notify status send_intermediate ≡ true) ↔ Reported status send_intermediate
unfolding should_notify
should_notify-Reported status i = ground (
  arith,
  str_eq_iff status sent_status,
  str_eq_iff status failed_status,
  str_eq_iff status unconfirmed_status,
  str_eq_iff status retrying_status,
)

-- What is true of an entry for which a callback is due.
abbrev pub IsDue : Platform → Config → Entry → Type 0
IsDue p c entry =
    Reported entry.status c.send_intermediate
    × (is_empty (or_text entry.callback_url c.default_url) ≡ false)
    × (is_allowed_url p.lower p.parse_url (or_text entry.callback_url c.default_url) c.allowed_hosts
        ≡ true)

abbrev pub due_delivery : Config → Entry → Option ℕ → Str → Delivery
due_delivery c entry attempt now = record {
  callback_url = or_text entry.callback_url c.default_url;
  payload = build_payload entry now attempt;
}

module _ (p : Platform) (c : Config) (entry : Entry) (attempt : Option ℕ) (now : Str) where
  Reported-not_empty : Reported entry.status c.send_intermediate → is_empty entry.status ≡ false
  Reported-not_empty r = ground arith

  due_queued :
      IsDue p c entry → delivery_for p c entry attempt now ≡ some (due_delivery c entry attempt now)
  unfolding delivery_for
  due_queued (reported, some_url, allowed) =
      let notify = (should_notify-Reported entry.status c.send_intermediate).1 reported in
      rw (Reported-not_empty reported, notify, some_url, allowed) refl

  not-IsDue_dropped : (IsDue p c entry) ⊎ (delivery_for p c entry attempt now ≡ none)
  unfolding delivery_for
  not-IsDue_dropped = ground (arith, should_notify-Reported entry.status c.send_intermediate)

  module _ (queue : DeliveryQueue) (q : queue.State) where
    -- A callback is queued exactly for an entry whose status is reported and whose URL (its own, or
    -- else the default) is present and allowed: then, if the queue takes the job, one job with that
    -- URL and the entry's payload is behind the others; in all other cases the queue stays as it is.
    pub enqueue_webhook_lem :
        (IsDue p c entry
          × ((queue.jobs (enqueue_webhook queue p c (some entry) attempt now q)
                ≡ queue.jobs q ++ due_delivery c entry attempt now ∷ [])
              ⊎ (enqueue_webhook queue p c (some entry) attempt now q ≡ q)
                × (queue.add (due_delivery c entry attempt now) q ≡ none)))
        ⊎ (¬ IsDue p c entry) × (enqueue_webhook queue p c (some entry) attempt now q ≡ q)
    unfolding enqueue_webhook
    enqueue_webhook_lem = elim not-IsDue_dropped [
      | inl due ↦ elim (Option-cases (queue.add (due_delivery c entry attempt now) q)) [
        | inl refused ↦
            let kept : or_else (queue.add (due_delivery c entry attempt now) q) q ≡ q =
              rw refused refl in
            inl (due, inr (rw (due_queued due, add_delivery) kept, refused))
        | inr (q', taken) ↦
            let moved : or_else (queue.add (due_delivery c entry attempt now) q) q ≡ q' =
              rw taken refl in
            inl (
              due,
              inl (
                  rw (due_queued due, add_delivery) (ap queue.jobs moved)
                  ∙ queue.jobs-add (due_delivery c entry attempt now) q q' taken),
            )
      ]
      | inr none_due ↦ inr (λ due. cc (due_queued due), rw (none_due, add_delivery) refl)
    ]

-- The status codes on which a receiver's answer is final.
abbrev pub IsRejection : ℕ → Type 0
IsRejection code = (400 ≤ code) × (code < 500) × (code ≢ 408) × (code ≢ 429)

abbrev pub IsOk : ℕ → Type 0
IsOk code = (200 ≤ code) × (code < 300)

retried_facts : (k : ℕ) → deliver (answered k) ≡ retried → (¬ IsOk k) × (¬ IsRejection k)
unfolding deliver
retried_facts k h = (λ ok. ground arith, λ rejected. ground arith)

-- A callback that was not answered with a success is dropped exactly when the answer is a 4xx other
-- than 408 and 429, and tried again in every other case, a network error included.
pub deliver_lem :
    (r : Response)
    → ((deliver r ≡ retried) ↔ (
        (r ≡ failed) ⊎ ((code : ℕ) × (r ≡ answered code) × (¬ IsOk code) × (¬ IsRejection code))))
      × ((code : ℕ) → (deliver r ≡ delivered code) ↔ ((r ≡ answered code) × IsOk code))
      × ((code : ℕ) → (deliver r ≡ dropped code) ↔ ((r ≡ answered code) × IsRejection code))
unfolding deliver
deliver_lem failed = (ground arith, λ code. ground arith, λ code. ground arith)
deliver_lem (answered k) = (
  (λ h. inr (k, refl, (retried_facts k h).0, (retried_facts k h).1), λ o. ground arith),
  λ code. ground arith,
  λ code. ground arith,
)
