-- ===== src/Webhook/Queue.antt =====
-- A BullMQ queue, which is not part of the repository: adding a job puts it behind the others, or
-- throws (`none`).
use modem_sms_gateway.Prelude.{◌≡◌, List, [], ◌∷◌, ◌++◌, Option, some}

pub record JobQueue (Job : Type 0) : Type 1 where
  pub State : Type 0
  pub jobs : State → List Job
  pub add : Job → State → Option State
  pub jobs-add : (j : Job) (q q' : State) → add j q ≡ some q' → jobs q' ≡ jobs q ++ j ∷ []
