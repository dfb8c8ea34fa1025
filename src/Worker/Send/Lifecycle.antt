-- ===== src/Worker/Send/Lifecycle.antt =====
-- config/bull.config.js: the attempts of a job as moves of the abstract machine of its SMS.
use modem_sms_gateway.Prelude.{
  ℕ, suc, ◌+◌, ◌≤◌, ◌<◌, ◌≡◌, refl, sym, ap, ◌∙◌, inl, inr, Bool, true, false, not, ◌&&◌, List, [],
  ◌∷◌, Option, none, some, All, is_some, arith, Str, length, ltb, if◌then◌else◌, Bool-cases,
  Option-cases,
}
use mathlib.Core.Path.{subst}
use modem_sms_gateway.Pool.{Modem}
use modem_sms_gateway.Store.Table.{map_option}
use modem_sms_gateway.Store.LogStore.{Entry, SentTable, get_log}
use modem_sms_gateway.Webhook.Sender.{Platform, Config, DeliveryQueue}
use modem_sms_gateway.Worker.Send.{
  SendJob, SendResult, accepted, rejected, SendError, Outcome, thrown, choose_modem, pinned,
  choose_error, send_error, attempts_or_one, BalanceChecks, World, finish_send, process_send,
  record_failure, on_failed,
}
use modem_sms_gateway.Worker.Send.Laws.{
  status_of, Writes, Filed, process_send_unknown, process_send_known, record_failure-Filed,
  finish_send-sent, choose_error-unrecoverable,
}
use modem_sms_gateway.Worker.Send.Life.{Attempt, IsRetryRule, after_attempt, after_attempt-true}
use modem_sms_gateway.Worker.Send.Machine.{
  Phase, retrying, sent, failed, unconfirmed, phase_status, is_open, Heard, failed_heard,
  heard_result, heard_from, heard, Move, deliver, doubt, give_up, try_again, Moves, no_move,
  then_moves, send_error-heard, Finds,
}

module _ (db : SentTable) (queue : DeliveryQueue) (p : Platform) (c : Config)
    (retry : SendError → ℕ → ℕ → Bool) where
  abbrev Full : Type 0
  Full = World db queue p c × BalanceChecks

  -- The state after the attempts of `run_job`.
  unfoldable pub run_world : SendJob → ℕ → Option ℕ → List Attempt → Full → Full
  unfolding after_attempt
  run_world job made attempts [] f = f
  run_world job made attempts (a ∷ env) (w, b) =
      let step = process_send db queue p c a.pool a.rr job made a.result a.now w in
      let next = after_attempt db queue p c retry a job made attempts b step in
      let rest = run_world job (suc made) attempts env next.0 in if next.1 then rest else next.0

  -- What the attempts of `run_job` heard.
  unfoldable pub run_heard : SendJob → ℕ → Option ℕ → List Attempt → Full → List Heard
  unfolding after_attempt
  run_heard job made attempts [] f = []
  run_heard job made attempts (a ∷ env) (w, b) =
      let step = process_send db queue p c a.pool a.rr job made a.result a.now w in
      let next = after_attempt db queue p c retry a job made attempts b step in
      let rest = run_heard job (suc made) attempts env next.0 in
      heard job a ∷ (if next.1 then rest else [])

  -- The log is in a phase.
  abbrev pub IsIn : SendJob → Full → Phase → Type 0
  IsIn job f q = status_of db queue p c f.0 job.log_id ≡ some (phase_status q)

  -- An attempt that goes from an open phase to another one, and is followed by another attempt exactly
  -- if that one is open.
  abbrev pub Simulates : SendJob → Phase → Heard → Full × Bool → Type 0
  Simulates job ph h next = (q : Phase) × Move ph h q × IsIn job next.0 q × (next.1 ≡ is_open q)

  failure-Simulates :
      IsRetryRule retry
      → Writes db queue p c
      → (a : Attempt) (job : SendJob) (made : ℕ) (attempts : Option ℕ) (b : BalanceChecks)
        (w : World db queue p c) (e : Entry) (err : SendError) (ph : Phase) (h : Heard)
      → h ≡ failed_heard err.unrecoverable
      → get_log db job.log_id w.log ≡ some e
      → is_open ph ≡ true
      → Simulates job ph h (after_attempt db queue p c retry a job made attempts b (w, thrown err))
  unfolding after_attempt on_failed
  failure-Simulates rule writes a job made attempts b w e err ph h cause found op =
      let (status, filed, is) =
        record_failure-Filed db queue p c job (suc made) attempts err a.now w e writes found in
      let r = rule err (suc made) (attempts_or_one attempts) in go status filed is r
    where
      as_heard :
          (u : Bool) {q : Phase} → err.unrecoverable ≡ u → Move ph (failed_heard u) q → Move ph h q
      as_heard u {q} e m = subst (λ (x : Heard). Move ph x q) (sym (cause ∙ ap failed_heard e)) m

      go :
          (status : Str)
          → Filed db queue p c err (suc made) attempts status
          → status_of db queue p c
              (record_failure db queue p c job (suc made) attempts err a.now w)
              job.log_id
            ≡ some status
          → retry err (suc made) (attempts_or_one attempts)
            ≡ (not err.unrecoverable && ltb (suc made) (attempts_or_one attempts))
          → Simulates job ph h
              (after_attempt db queue p c retry a job made attempts b (w, thrown err))
      go status (inl (u, s)) is r =
          (unconfirmed, as_heard true u (doubt ph op), is ∙ ap some s, ground arith)
      go status (inr (inl (u, n, s))) is r =
          (failed, as_heard false u (give_up ph op), is ∙ ap some s, ground arith)
      go status (inr (inr (u, n, s))) is r =
          (retrying, as_heard false u (try_again ph op), is ∙ ap some s, ground arith)

  found_entry :
      (w : World db queue p c) (id s : Str)
      → status_of db queue p c w id ≡ some s
      → (e : Entry) × (get_log db id w.log ≡ some e)
  found_entry w id s h = elim (Option-cases (get_log db id w.log)) [
    | inl missing ↦
        let e = sym (ap (map_option (λ (t : Entry). t.status)) missing) ∙ h in absurd (cc e)
    | inr e ↦ e
  ]

  attempt-Simulates :
      IsRetryRule retry
      → Writes db queue p c
      → (a : Attempt) (job : SendJob) (made : ℕ) (attempts : Option ℕ) (b : BalanceChecks)
        (w : World db queue p c) (ph : Phase)
      → Finds job a
      → IsIn job (w, b) ph
      → is_open ph ≡ true
      → let step = process_send db queue p c a.pool a.rr job made a.result a.now w in
        Simulates job ph (heard job a) (after_attempt db queue p c retry a job made attempts b step)
  attempt-Simulates rule writes a job made attempts b w ph finds at op =
      let (e, found) = found_entry w job.log_id (phase_status ph) at in
      elim (Option-cases (choose_modem a.pool a.rr job.modem).0) [
        | inl missing ↦
            subst
              (λ (t : World db queue p c × Outcome).
                Simulates job ph (heard job a)
                  (after_attempt db queue p c retry a job made attempts b t))
              (sym
                (process_send_unknown db queue p c a.pool a.rr job made a.result a.now w missing))
              (failure-Simulates rule writes a job made attempts b w e (choose_error job.modem) ph
                (heard job a)
                (ap (λ o. heard_from o a.result) missing
                  ∙ sym (
                      ap failed_heard (
                        choose_error-unrecoverable db queue p c job.modem
                        ∙ unpinned finds missing)))
                found op)
        | inr (m, known) ↦
            subst
              (λ (t : (World db queue p c × Outcome) × Heard).
                Simulates job ph t.1 (after_attempt db queue p c retry a job made attempts b t.0))
              (sym (
                both (process_send_known db queue p c a.pool a.rr job made a.result a.now w m known)
                  (ap (λ o. heard_from o a.result) known)))
              (answered e found m (a.result m))
      ]
    where
      both :
          {x y : World db queue p c × Outcome} {h k : Heard}
          → x ≡ y
          → h ≡ k
          → ◌≡◌ {A = (World db queue p c × Outcome) × Heard} (x, h) (y, k)
      both e f = rw (e, f) refl

      unpinned :
          Finds job a
          → (choose_modem a.pool a.rr job.modem).0 ≡ none
          → is_some (pinned job.modem) ≡ false
      unpinned (inl free) missing = free
      unpinned (inr (m, known)) missing = absurd (cc)

      answered :
          (e : Entry)
          → get_log db job.log_id w.log ≡ some e
          → (m : Modem) (r : SendResult)
          → let step = finish_send db queue p c job made m r a.now w in
            Simulates job ph
              (heard_result r)
              (after_attempt db queue p c retry a job made attempts b step)
      answered e found m (rejected message timeout) =
          unfold finish_send in
          failure-Simulates rule writes a job made attempts b w e (send_error m message timeout) ph
            (failed_heard timeout) (send_error-heard m message timeout) found op
      answered e found m (accepted reference) =
          let is = finish_send-sent db queue p c job made m reference a.now w e writes found in
          unfold finish_send after_attempt in (sent, deliver ph op, is, refl)

  -- A refinement: under BullMQ's retry rule and on a database that writes, the attempts of a job whose
  -- SMS is logged as open are moves of the abstract machine by what they heard of the SMS, and the log
  -- ends in the phase to which they lead, if a job that is pinned to a modem finds it; where the
  -- environment has as many attempts as the job may make, that phase is settled.
  pub run_world-Moves :
      IsRetryRule retry
      → Writes db queue p c
      → (job : SendJob) (made : ℕ) (attempts : Option ℕ) (env : List Attempt) (f : Full)
        (ph : Phase)
      → All (Finds job) env
      → IsIn job f ph
      → is_open ph ≡ true
      → made < attempts_or_one attempts
      → (q : Phase) × Moves ph (run_heard job made attempts env f) q
        × IsIn job (run_world job made attempts env f) q
        × (attempts_or_one attempts ≤ made + length env → is_open q ≡ false)
  unfolding run_world run_heard
  run_world-Moves rule writes job made attempts [] f ph finds at op left =
      (ph, no_move ph, at, λ enough. absurd (omega arith))
  run_world-Moves rule writes job made attempts (a ∷ env) (w, b) ph (find, finds) at op left =
      let step = process_send db queue p c a.pool a.rr job made a.result a.now w in
      let next = after_attempt db queue p c retry a job made attempts b step in
      let (q, move, is, goes) =
        attempt-Simulates rule writes a job made attempts b w ph find at op in
      elim (Bool-cases next.1) [
        | inl again ↦
            let more =
              (after_attempt-true db queue p c retry rule a job made attempts b step again).1 in
            let (r, rest, end, enough) =
              run_world-Moves rule writes job (suc made) attempts env next.0 q finds is
                (sym goes ∙ again) more in
            rw again (
              r,
              then_moves ph q r (heard job a) (run_heard job (suc made) attempts env next.0) move
                  rest,
              end,
              λ size. enough (omega arith),
            )
        | inr ended ↦
            let shut : is_open q ≡ false = sym goes ∙ ended in
            rw ended (q, then_moves ph q q (heard job a) [] move (no_move q), is, λ enough. shut)
      ]
