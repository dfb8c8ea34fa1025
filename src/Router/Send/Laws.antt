-- ===== src/Router/Send/Laws.antt =====
-- router/router.js: how `POST /send` ends.
use modem_sms_gateway.Prelude.{
  ◌≡◌, refl, ap, ◌∙◌, ◌⊎◌, inl, inr, [], ◌∷◌, ◌++◌, Option, none, some, Str, str_eq_refl,
  Option-cases,
}
use modem_sms_gateway.Store.Table.{map_option}
use modem_sms_gateway.Store.LogStore.{Entry, Patch, SentTable, append_log, get_log, update_log}
use modem_sms_gateway.Store.LogStore.Laws.{patched, get_log-append_log, get_log-update_log}
use modem_sms_gateway.Webhook.Payload.{failed_status}
use modem_sms_gateway.Webhook.Queue.{JobQueue}
use modem_sms_gateway.Webhook.Sender.{Platform, Config, DeliveryQueue}
use modem_sms_gateway.Worker.Send.{SendJob}
use modem_sms_gateway.Router.Validate.{SendRequest}
use modem_sms_gateway.Router.Send.{
  Call, Answer, queued, server_error, log_entry, send_job, failed_patch, Gateway, mark_failed,
  fail_send, queue_send, log_send, handle_send, handle_status,
}

module _ (db : SentTable) (jobs : JobQueue SendJob) (queue : DeliveryQueue) (p : Platform)
    (c : Config) where
  abbrev G : Type 0
  G = Gateway db jobs queue p c

  -- Every update returns.
  abbrev pub Updates : Type 0
  Updates =
      (id : Str) (patch : Patch) (s : db.State)
      → (s' : db.State) × (r : Option Entry) × (update_log db id patch s ≡ some (s', r))

  mark_failed-log :
      (o : Option (db.State × Option Entry)) (now : Str) (g : G) (s' : db.State) (e : Option Entry)
      → o ≡ some (s', e)
      → let g' = mark_failed db jobs queue p c o now g in (g'.log ≡ s') × (g'.sends ≡ g.sends)
  unfolding mark_failed
  mark_failed-log o now g s' none h = rw h (refl, refl)
  mark_failed-log o now g s' (some x) h = rw h (refl, refl)

  -- What is true of a failed request: no job is added, and the entry, if there is one, is `failed`.
  abbrev pub FailedCleanly : Call → G → G → Type 0
  FailedCleanly call g g' =
      (g'.sends ≡ g.sends)
      × ((handle_status db jobs queue p c call.id g' ≡ none)
          ⊎ ((e : Entry) × (handle_status db jobs queue p c call.id g' ≡ some e)
              × (e.status ≡ failed_status)
              × (e.error ≡ some call.error_text)))

  fail_send-FailedCleanly :
      Updates → (call : Call) (g : G) → FailedCleanly call g (fail_send db jobs queue p c call g).0
  unfolding fail_send handle_status
  fail_send-FailedCleanly updates call g =
      let patch = failed_patch call.error_text in
      let (s', r, wrote) = updates call.id patch g.log in
      let (log, sends) =
        mark_failed-log (update_log db call.id patch g.log) call.now g s' r wrote in
      let after : get_log db call.id s' ≡ map_option (patched patch) (get_log db call.id g.log) =
        (get_log-update_log db call.id call.id patch g.log s' r wrote).1
        ∙ rw (str_eq_refl call.id) refl in
      let found : handle_status db jobs queue p c call.id (fail_send db jobs queue p c call g).0
          ≡ map_option (patched patch) (get_log db call.id g.log) =
        ap (get_log db call.id) log ∙ after in
      (
        sends,
        elim (Option-cases (get_log db call.id g.log)) [
          | inl missing ↦ inl (found ∙ ap (map_option (patched patch)) missing)
          | inr (e, there) ↦
              inr (patched patch e, found ∙ ap (map_option (patched patch)) there, refl, refl)
        ],
      )

  -- How a request may end.
  abbrev pub Ends : Call → SendRequest → G → G × Answer → Type 0
  Ends call r g (g', answer) =
      ((answer ≡ queued call.id)
        × (handle_status db jobs queue p c call.id g' ≡ some (log_entry call r))
        × (jobs.jobs g'.sends ≡ jobs.jobs g.sends ++ send_job call r ∷ []))
      ⊎ ((answer ≡ server_error call.error_text) × FailedCleanly call g g')

  fail_send-Ends :
      Updates
      → (call : Call) (r : SendRequest) (g0 g : G) → g.sends ≡ g0.sends
      → Ends call r g0 (fail_send db jobs queue p c call g)
  fail_send-Ends updates call r g0 g same =
      let (sends, ending) = fail_send-FailedCleanly updates call g in
      inr (unfold fail_send in refl, (sends ∙ same, ending))

  queue_send-Ends :
      Updates
      → (call : Call) (r : SendRequest) (g0 g : G) (o : Option jobs.State) → g.sends ≡ g0.sends
      → get_log db call.id g.log ≡ some (log_entry call r)
      → jobs.add (send_job call r) g.sends ≡ o
      → Ends call r g0 (queue_send db jobs queue p c call o g)
  unfolding queue_send
  queue_send-Ends updates call r g0 g none same logged h = fail_send-Ends updates call r g0 g same
  queue_send-Ends updates call r g0 g (some sends) same logged h = inl (
    refl,
    unfold handle_status in logged,
    jobs.jobs-add (send_job call r) g.sends sends h
        ∙ ap (λ q. jobs.jobs q ++ send_job call r ∷ []) same,
  )

  log_send-Ends :
      Updates
      → (call : Call) (r : SendRequest) (g : G) (o : Option db.State)
      → append_log db (log_entry call r) g.log ≡ o
      → Ends call r g (log_send db jobs queue p c call r o g)
  unfolding log_send log_entry
  log_send-Ends updates call r g none h = fail_send-Ends updates call r g g refl
  log_send-Ends updates call r g (some log) h =
      let logged : get_log db call.id log ≡ some (log_entry call r) =
        (get_log-append_log db (log_entry call r) g.log log call.id h).1
        ∙ rw (str_eq_refl call.id) refl in
      queue_send-Ends updates call r g (record g { log = log }) (jobs.add (send_job call r) g.sends)
        refl logged refl

  -- On a database that updates, a request is either answered with 202, and then its
  -- entry is in the log as pending and its job is behind the others in the queue; or answered with
  -- 500, and then the queue is as it was, and its entry is not in the log or has failed with the
  -- error of the answer.
  pub handle_send_lem :
      Updates
      → (call : Call) (r : SendRequest) (g : G)
      → Ends call r g (handle_send db jobs queue p c call r g)
  unfolding handle_send
  handle_send_lem updates call r g =
      log_send-Ends updates call r g (append_log db (log_entry call r) g.log) refl
