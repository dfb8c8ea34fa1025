-- ===== src/Worker/Send/Life.antt =====
-- The attempts of one job, from the first to the last. BullMQ, which is not part of the repository,
-- decides after each failure whether there is another attempt: that is the parameter `retry`.
use modem_sms_gateway.Prelude.{
  ℕ, zero, suc, ◌+◌, ◌≤◌, ◌<◌, ◌≡◌, refl, inl, inr, Bool, true, false, not, ◌&&◌, List, [], ◌∷◌,
  Option, some, arith, Str, length, get_elem?, ◌⊎◌, ltb, if◌then◌else◌, Bool-cases,
}
use mathlib.Core.Option.{some-injective}
use modem_sms_gateway.Worker.Send.Laws.{process_send_lem}
use modem_sms_gateway.Pool.{Modem}
use modem_sms_gateway.Store.LogStore.{SentTable}
use modem_sms_gateway.Webhook.Sender.{Platform, Config, DeliveryQueue}
use modem_sms_gateway.Worker.Send.{
  SendJob, SendResult, accepted, rejected, choose_modem, SendError, Outcome, done, thrown,
  attempts_or_one, BalanceChecks, World, process_send, on_failed,
}

-- What the environment gives one attempt.
pub record Attempt : Type 0 where
  pub pool : List Modem
  pub rr : ℕ
  pub result : Modem → SendResult
  pub now : Str
  pub now_ms : ℕ

-- BullMQ's documented rule: a job is tried again unless its error is an `UnrecoverableError` or the
-- attempts are used up.
abbrev pub IsRetryRule : (SendError → ℕ → ℕ → Bool) → Type 0
IsRetryRule retry =
    (e : SendError) (made attempts : ℕ)
    → retry e made attempts ≡ (not e.unrecoverable && ltb made attempts)

module _ (db : SentTable) (queue : DeliveryQueue) (p : Platform) (c : Config)
    (retry : SendError → ℕ → ℕ → Bool) where
  abbrev Full : Type 0
  Full = World db queue p c × BalanceChecks

  -- How a job goes on after an attempt: the state, and whether there is another attempt.
  unfoldable pub after_attempt :
      Attempt → SendJob → ℕ → Option ℕ → BalanceChecks → World db queue p c × Outcome → Full × Bool
  after_attempt a job made attempts b (w, done reference id) = ((w, b), false)
  after_attempt a job made attempts b (w, thrown e) = (
    on_failed db queue p c a.pool (some job) (suc made) attempts e a.now a.now_ms (w, b),
    retry e (suc made) (attempts_or_one attempts),
  )

  -- The outcomes of the attempts of a job of which `made` attempts have been made, as long as the
  -- environment goes on.
  unfoldable pub run_job : SendJob → ℕ → Option ℕ → List Attempt → Full → List Outcome
  unfolding after_attempt
  run_job job made attempts [] (w, b) = []
  run_job job made attempts (a ∷ env) (w, b) =
      let step = process_send db queue p c a.pool a.rr job made a.result a.now w in
      let next = after_attempt a job made attempts b step in
      let rest = run_job job (suc made) attempts env next.0 in
      step.1 ∷ (if next.1 then rest else [])

  -- An attempt in which the SMS may be with the network: the modem took it, or its confirmation
  -- timed out.
  abbrev pub MaySubmit : SendJob → Attempt → Type 0
  MaySubmit job a =
      (m : Modem) × ((choose_modem a.pool a.rr job.modem).0 ≡ some m)
      × (((reference : Option Str) × (a.result m ≡ accepted reference))
          ⊎ ((message : Str) × (a.result m ≡ rejected message true)))

  pub after_attempt-true :
      IsRetryRule retry
      → (a : Attempt) (job : SendJob) (made : ℕ) (attempts : Option ℕ) (b : BalanceChecks)
        (step : World db queue p c × Outcome)
      → (after_attempt a job made attempts b step).1 ≡ true
      → ((e : SendError) × (step.1 ≡ thrown e) × (e.unrecoverable ≡ false))
        × (suc made < attempts_or_one attempts)
  unfolding after_attempt
  after_attempt-true rule a job made attempts b (w, done reference id) h = absurd (cc)
  after_attempt-true rule a job made attempts b (w, thrown e) h =
      let r = rule e (suc made) (attempts_or_one attempts) in
      ((e, refl, ground (arith, r)), ground (arith, r))

  clash :
      (o : Outcome) (e e' : SendError)
      → o ≡ thrown e
      → o ≡ thrown e'
      → e.unrecoverable ≡ false
      → e'.unrecoverable ≡ true
      → ⊥
  clash o e e' h h' u u' = absurd (cc)

  not_MaySubmit :
      (a : Attempt) (job : SendJob) (made : ℕ) (w : World db queue p c) (e : SendError)
      → (process_send db queue p c a.pool a.rr job made a.result a.now w).1 ≡ thrown e
      → e.unrecoverable ≡ false
      → ¬ MaySubmit job a
  not_MaySubmit a job made w e h u (m, known, inl (reference, took)) =
      let lem = process_send_lem db queue p c a.pool a.rr job made a.result a.now w in
      cc (h, lem.0 m reference known took)
  not_MaySubmit a job made w e h u (m, known, inr (message, timed)) =
      let lem = process_send_lem db queue p c a.pool a.rr job made a.result a.now w in
      let (e', h', u') = lem.1.1 (inr (m, message, known, timed)) in
      clash (process_send db queue p c a.pool a.rr job made a.result a.now w).1 e e' h h' u u'

  -- Where the environment's attempts and the outcomes are counted from zero: under BullMQ's retry
  -- rule, an attempt after which there is another one cannot have submitted the SMS, neither
  -- accepted nor timed out, and there are at most as many attempts as configured.
  pub run_job_no_resend :
      IsRetryRule retry
      → (job : SendJob) (made : ℕ) (attempts : Option ℕ) (env : List Attempt) (f : Full)
      → made < attempts_or_one attempts
      → ((i : ℕ) (a : Attempt)
          → get_elem? env i ≡ some a
          → suc i < length (run_job job made attempts env f)
          → ¬ MaySubmit job a)
        × (made + length (run_job job made attempts env f) ≤ attempts_or_one attempts)
  unfolding run_job
  run_job_no_resend rule job made attempts [] (w, b) left =
      (λ i a e h. absurd (omega arith), omega arith)
  run_job_no_resend rule job made attempts (a ∷ env) (w, b) left =
      let step = process_send db queue p c a.pool a.rr job made a.result a.now w in
      let next = after_attempt a job made attempts b step in
      elim (Bool-cases next.1) [
        | inl again ↦
            let ((e, h, u), more) = after_attempt-true rule a job made attempts b step again in
            let (none_sent, few) = run_job_no_resend rule job (suc made) attempts env next.0 more in
            rw again (here e h u none_sent, omega arith)
        | inr ended ↦ rw ended (λ i a e h. absurd (omega arith), omega arith)
      ]
    where
      here :
          (e : SendError)
          → (process_send db queue p c a.pool a.rr job made a.result a.now w).1 ≡ thrown e
          → e.unrecoverable ≡ false
          → {n : ℕ}
          → ((i : ℕ) (a' : Attempt) → get_elem? env i ≡ some a' → suc i < n → ¬ MaySubmit job a')
          → (i : ℕ) (a' : Attempt) → get_elem? (a ∷ env) i ≡ some a'
          → suc i < suc n
          → ¬ MaySubmit job a'
      here e h u later zero a' same hi sent =
          not_MaySubmit a job made w e h u (rw (some-injective a a' same) sent)
      here e h u later (suc i) a' found hi sent = later i a' found (omega arith) sent
