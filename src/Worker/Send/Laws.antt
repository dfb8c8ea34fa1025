-- ===== src/Worker/Send/Laws.antt =====
-- config/bull.config.js: what one attempt and its `failed` handler do.
use modem_sms_gateway.Prelude.{
  ℕ, ◌≤◌, ◌<◌, ◌≡◌, refl, sym, ap, ◌∙◌, ◌⊎◌, ◌↔◌, inl, inr, true, false, List, [], ◌∷◌, Option,
  none, some, arith, Str, or_else, is_some, str_eq_refl, Option-cases,
}
use mathlib.Core.Option.{some-injective}
use modem_sms_gateway.Pool.{Modem}
use modem_sms_gateway.Store.Table.{map_option}
use modem_sms_gateway.Store.LogStore.{Entry, Patch, SentTable, get_log, update_log}
use modem_sms_gateway.Store.LogStore.Laws.{patched, get_log-update_log}
use modem_sms_gateway.Webhook.Payload.{
  sent_status, failed_status, unconfirmed_status, retrying_status,
}
use modem_sms_gateway.Webhook.Sender.{Platform, Config, DeliveryQueue}
use modem_sms_gateway.Worker.Send.{
  SendJob, SendResult, accepted, rejected, SendError, done, thrown, choose_modem, pinned,
  unknown_modem, no_modem, choose_error, send_error, sent_patch, failure_patch, failure_status,
  is_final_attempt, attempts_or_one, World, report, finish_send, process_send, record_failure,
}

module _ (db : SentTable) (queue : DeliveryQueue) (p : Platform) (c : Config) where
  abbrev W : Type 0
  W = World db queue p c

  -- The status in the log of the entry under an id.
  abbrev pub status_of : W → Str → Option Str
  status_of w id = map_option (λ e. e.status) (get_log db id w.log)

  -- The database writes: every update of an entry that exists returns.
  abbrev pub Writes : Type 0
  Writes =
      (id : Str) (patch : Patch) (s : db.State)
      → (s' : db.State) × (r : Option Entry) × (update_log db id patch s ≡ some (s', r))

  pub process_send_unknown :
      (pool : List Modem) (rr : ℕ) (job : SendJob) (made : ℕ) (result : Modem → SendResult)
      (now : Str) (w : W)
      → (choose_modem pool rr job.modem).0 ≡ none
      → process_send db queue p c pool rr job made result now w
        ≡ (w, thrown (choose_error job.modem))
  unfolding process_send
  process_send_unknown pool rr job made result now w e = rw (process_send, e) refl

  pub process_send_known :
      (pool : List Modem) (rr : ℕ) (job : SendJob) (made : ℕ) (result : Modem → SendResult)
      (now : Str) (w : W) (m : Modem)
      → (choose_modem pool rr job.modem).0 ≡ some m
      → process_send db queue p c pool rr job made result now w
        ≡ finish_send db queue p c job made m (result m) now w
  unfolding process_send
  process_send_known pool rr job made result now w m e = rw (process_send, e) refl

  pub choose_error-unrecoverable :
      (wanted : Option Str) → (choose_error wanted).unrecoverable ≡ is_some (pinned wanted)
  unfolding choose_error pinned unknown_modem no_modem
  choose_error-unrecoverable none = refl
  choose_error-unrecoverable (some []) = refl
  choose_error-unrecoverable (some (c ∷ s)) = refl

  finish_accepted :
      (job : SendJob) (made : ℕ) (m : Modem) (reference : Option Str) (now : Str) (w : W)
      → (finish_send db queue p c job made m (accepted reference) now w).1 ≡ done reference m.id
  unfolding finish_send
  finish_accepted job made m reference now w = refl

  finish_unrecoverable :
      (job : SendJob) (made : ℕ) (m : Modem) (r : SendResult) (now : Str) (w : W)
      → ((e : SendError) × ((finish_send db queue p c job made m r now w).1 ≡ thrown e)
          × (e.unrecoverable ≡ true))
        ↔ ((message : Str) × (r ≡ rejected message true))
  unfolding finish_send
  finish_unrecoverable job made m (accepted reference) now w =
      (λ (e, h, u). absurd (cc), λ (message, h). absurd (cc))
  finish_unrecoverable job made m (rejected message true) now w =
      (λ x. (message, refl), λ x. (send_error m message true, refl, unfold send_error in refl))
  finish_unrecoverable job made m (rejected message false) now w = (
    λ (e, h, u). absurd (unfold send_error in ground arith),
    λ (message', h). absurd (ground arith),
  )

  timed_out :
      (wanted : Option Str) (o : Option Modem) (result : Modem → SendResult) (n : Modem)
      → o ≡ some n
      → ((o ≡ none) × (is_some (pinned wanted) ≡ true))
        ⊎ ((m : Modem) × (message : Str) × (o ≡ some m) × (result m ≡ rejected message true))
      → (message : Str) × (result n ≡ rejected message true)
  timed_out wanted o result n found (inl (missing, pin)) = absurd (cc)
  timed_out wanted o result n found (inr (m, message, known, timed)) =
      (message, ap result (some-injective n m (sym found ∙ known)) ∙ timed)

  -- Once a modem has accepted the SMS the job is done, whatever the database and the webhook queue
  -- do; and it throws an unrecoverable error exactly when the job
  -- is pinned to a modem that the pool does not have or the modem's confirmation timed out.
  pub process_send_lem :
      (pool : List Modem) (rr : ℕ) (job : SendJob) (made : ℕ) (result : Modem → SendResult)
      (now : Str) (w : W)
      → let o = (process_send db queue p c pool rr job made result now w).1 in
        ((m : Modem) (reference : Option Str)
          → (choose_modem pool rr job.modem).0 ≡ some m
          → result m ≡ accepted reference
          → o ≡ done reference m.id)
        × (((e : SendError) × (o ≡ thrown e) × (e.unrecoverable ≡ true)) ↔ (
            ((choose_modem pool rr job.modem).0 ≡ none) × (is_some (pinned job.modem) ≡ true)
            ⊎ ((m : Modem) × (message : Str) × ((choose_modem pool rr job.modem).0 ≡ some m)
                × (result m ≡ rejected message true))))
  process_send_lem pool rr job made result now w =
      elim (Option-cases (choose_modem pool rr job.modem).0) [
        | inl missing ↦
            let e = ap (λ t. t.1) (process_send_unknown pool rr job made result now w missing) in
            (
              λ m reference known r. absurd (cc),
              (
                λ (x, h, u).
                    let same : choose_error job.modem ≡ x =
                      thrown_same (choose_error job.modem) x (sym e ∙ h) in
                    inl (
                      missing,
                      sym (choose_error-unrecoverable job.modem)
                          ∙ ap (λ t. t.unrecoverable) same
                          ∙ u,
                    ),
                λ x. (
                  choose_error job.modem,
                  e,
                  choose_error-unrecoverable job.modem ∙ pin_of x missing,
                ),
              ),
            )
        | inr (n, found) ↦
            let e = ap (λ t. t.1) (process_send_known pool rr job made result now w n found) in
            let iff = finish_unrecoverable job made n (result n) now w in
            (
              λ m reference known r.
                  let same : n ≡ m = some-injective n m (sym found ∙ known) in
                  e
                  ∙ ap (λ t. (finish_send db queue p c job made t (result t) now w).1) same
                  ∙ ap (λ t. (finish_send db queue p c job made m t now w).1) r
                  ∙ finish_accepted job made m reference now w,
              (
                λ (x, h, u).
                    let (message, timed) = iff.0 (x, sym e ∙ h, u) in
                    inr (n, message, found, timed),
                λ x.
                    let (err, h, u) =
                      iff.1
                        (timed_out job.modem (choose_modem pool rr job.modem).0 result n found x) in
                    (err, e ∙ h, u),
              ),
            )
      ]
    where
      thrown_same : (a b : SendError) → thrown a ≡ thrown b → a ≡ b
      thrown_same a b h = ground arith

      pin_of :
          (((choose_modem pool rr job.modem).0 ≡ none) × (is_some (pinned job.modem) ≡ true))
            ⊎ ((m : Modem) × (message : Str) × ((choose_modem pool rr job.modem).0 ≡ some m)
                × (result m ≡ rejected message true))
          → (choose_modem pool rr job.modem).0 ≡ none
          → is_some (pinned job.modem) ≡ true
      pin_of (inl (missing, pin)) h = pin
      pin_of (inr (m, message, known, timed)) h = absurd (cc)

  status_after :
      (id : Str) (patch : Patch) (status : Str) (w w' : W) (s' : db.State) (r : Option Entry)
      (e : Entry)
      → patch.status ≡ some status
      → get_log db id w.log ≡ some e
      → update_log db id patch w.log ≡ some (s', r)
      → w'.log ≡ s'
      → status_of w' id ≡ some status
  status_after id patch status w w' s' r e st found wrote log =
      let after = (get_log-update_log db id id patch w.log s' r wrote).1 in
      let self : get_log db id s' ≡ map_option (patched patch) (get_log db id w.log) =
        after ∙ rw (str_eq_refl id) refl in
      ap (λ l. map_option (λ (t : Entry). t.status) (get_log db id l)) log
      ∙ ap (map_option (λ (t : Entry). t.status)) (self ∙ ap (map_option (patched patch)) found)
      ∙ ap (λ o. some (or_else o e.status)) st

  report-log :
      (o : Option (db.State × Option Entry)) (s' : db.State) (r : Option Entry) (made : ℕ)
      (now : Str) (w : W)
      → o ≡ some (s', r)
      → (report db queue p c o made now w).log ≡ s'
  unfolding report
  report-log o s' r made now w e = rw e refl

  -- The status by the error alone: an unrecoverable error is `unconfirmed`, the last attempt allowed is
  -- `failed`, and any other failure is `retrying`.
  abbrev pub Filed : SendError → ℕ → Option ℕ → Str → Type 0
  Filed err made attempts status =
      ((err.unrecoverable ≡ true) × (status ≡ unconfirmed_status))
      ⊎ ((err.unrecoverable ≡ false) × (attempts_or_one attempts ≤ made) × (status ≡ failed_status))
      ⊎ ((err.unrecoverable ≡ false)
          × (made < attempts_or_one attempts)
          × (status ≡ retrying_status))

  Filed_lem :
      (err : SendError) (made : ℕ) (attempts : Option ℕ)
      → Filed err made attempts
          (failure_status err.unrecoverable (is_final_attempt err made attempts))
  unfolding failure_status is_final_attempt
  Filed_lem err made attempts = ground arith

  -- After a failed attempt of a logged SMS, on a database that writes, the log holds the status by its
  -- error.
  pub record_failure-Filed :
      (job : SendJob) (made : ℕ) (attempts : Option ℕ) (err : SendError) (now : Str) (w : W)
      (e : Entry)
      → Writes
      → get_log db job.log_id w.log ≡ some e
      → (status : Str) × Filed err made attempts status
        × (status_of (record_failure db queue p c job made attempts err now w) job.log_id
            ≡ some status)
  unfolding record_failure
  record_failure-Filed job made attempts err now w e writes found =
      let status = failure_status err.unrecoverable (is_final_attempt err made attempts) in
      let (s', r, wrote) = writes job.log_id (failure_patch status err) w.log in
      (
        status,
        Filed_lem err made attempts,
        status_after job.log_id (failure_patch status err) status w
            (report db queue p c (update_log db job.log_id (failure_patch status err) w.log) made
              now w)
            s' r e refl found wrote
            (report-log (update_log db job.log_id (failure_patch status err) w.log) s' r made now w
              wrote),
      )

  -- After an accepted send of a logged SMS, on a database that writes, its status is `sent`.
  pub finish_send-sent :
      (job : SendJob) (made : ℕ) (m : Modem) (reference : Option Str) (now : Str) (w : W)
      (e : Entry)
      → Writes
      → get_log db job.log_id w.log ≡ some e
      → status_of (finish_send db queue p c job made m (accepted reference) now w).0 job.log_id
        ≡ some sent_status
  unfolding finish_send
  finish_send-sent job made m reference now w e writes found =
      let patch = sent_patch now reference m.id in
      let (s', r, wrote) = writes job.log_id patch w.log in
      status_after job.log_id patch sent_status w
        (report db queue p c (update_log db job.log_id patch w.log) made now w) s' r e refl found
        wrote (report-log (update_log db job.log_id patch w.log) s' r made now w wrote)
