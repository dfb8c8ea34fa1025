-- ===== src/Ussd/Worker.antt =====
-- config/ussd.config.js: a session is queued, run by the worker, and settled in the table.
pub mod Laws
pub mod Run
use modem_sms_gateway.Prelude.{
  ℕ, Bool, true, false, not, ◌&&◌, ◌||◌, List, [], ◌∷◌, ◌++◌, Option, none, some, Str, codes, leb,
  if◌then◌else◌, str_eq,
}
use modem_sms_gateway.Pool
use modem_sms_gateway.Pool.{Modem}
use modem_sms_gateway.Ussd.Store.{
  Request, Completion, done_status, UssdTable, create_request, complete_request,
}
use modem_sms_gateway.Webhook.Payload.{pending_status, failed_status}
use modem_sms_gateway.Webhook.Queue.{JobQueue}
use modem_sms_gateway.Worker.Send.{attempts_or_one}

-- The jobs of the queue: a session, or a look into the inbox after so many milliseconds.
pub data UssdJob : Type 0 where
  session : Str → Str → Str → Str → UssdJob
  poll_inbox : Str → ℕ → UssdJob

abbrev pub UssdQueue : Type 1
UssdQueue = JobQueue UssdJob

-- `TARIFF_INBOX_POLL_DELAYS_MS`.
abbrev pub poll_delays : List ℕ
poll_delays = 30000 ∷ 90000 ∷ 180000 ∷ []

-- What `runUssd` gives: a line, `null`, or an exception.
pub data SessionResult : Type 0 where
  line : Str → SessionResult
  silent : SessionResult
  broken : Str → SessionResult

pub record UssdError : Type 0 where
  pub message : Str
  pub unrecoverable : Bool

pub data SessionOutcome : Type 0 where
  finished : Str → SessionOutcome
  thrown : UssdError → SessionOutcome

-- `const { status, error } = …` of a failed request.
abbrev pub failure : Str → Str → Completion
failure message now = record {
  status = failed_status;
  reply = none;
  error = some message;
  completed_at = now;
}

abbrev pub success : Str → Str → Completion
success reply now = record {
  status = done_status;
  reply = some reply;
  error = none;
  completed_at = now;
}

-- The row that `enqueueUssd` makes; `code` is `modem.ussdCodes[kind]`.
abbrev pub pending_request : Str → Str → Str → Str → Str → Request
pending_request id modem_id kind code now = record {
  id = id;
  modem_id = modem_id;
  kind = kind;
  code = code;
  status = pending_status;
  reply = none;
  error = none;
  requested_at = now;
  completed_at = none;
}

-- `db_error` is the text of an exception of the database.
module _ (db : UssdTable) (queue : UssdQueue) (db_error : Str) where
  pub record UssdWorld : Type 0 where
    pub requests : db.State
    pub jobs : queue.State

  -- The state after a `completeRequest` whose exception is caught.
  abbrev pub keep_completed : Option (db.State × Option Request) → UssdWorld → UssdWorld
  keep_completed none w = w
  keep_completed (some (s, r)) w = record w { requests = s }

  unfoldable pub settle_failed : Str → Str → Str → UssdWorld → UssdWorld
  settle_failed id message now w =
      keep_completed (complete_request db id (failure message now) w.requests) w

  -- After the row is created: the request, or `none` when an exception is thrown.
  unfoldable pub add_session :
      Request → Str → Str → Option queue.State → UssdWorld → UssdWorld × Option Request
  unfolding settle_failed
  add_session r message later none w = (settle_failed r.id message later w, none)
  add_session r message later (some jobs) w = (record w { jobs = jobs }, some r)

  unfoldable pub create_session :
      Request → Str → Str → Option db.State → UssdWorld → UssdWorld × Option Request
  unfolding add_session
  create_session r message later none w = (w, none)
  create_session r message later (some s) w =
      add_session r message later (queue.add (session r.id r.modem_id r.kind r.code) w.jobs)
        (record w { requests = s })

  -- `enqueueUssd` of a row made by `pending_request`; `message` is the text of the queue's exception,
  -- and `later` the time at which it is caught.
  unfoldable pub enqueue_ussd : Request → Str → Str → UssdWorld → UssdWorld × Option Request
  unfolding create_session
  enqueue_ussd r message later w = create_session r message later (create_request db r w.requests) w

  -- The inbox polls after a tariff session; an exception ends the loop.
  unfoldable pub schedule_polls : Str → List ℕ → queue.State → queue.State
  schedule_polls modem_id [] q = q
  schedule_polls modem_id (d ∷ ds) q = elim (queue.add (poll_inbox modem_id d) q) [
    | none ↦ q
    | some q' ↦ schedule_polls modem_id ds q'
  ]

  unfoldable pub after_reply :
      Str → Str → Str → Option (db.State × Option Request) → UssdWorld → UssdWorld × SessionOutcome
  unfolding schedule_polls
  after_reply modem_id kind reply none w =
      (w, thrown (record { message = db_error; unrecoverable = false }))
  after_reply modem_id kind reply (some (s, r)) w = (
    record {
      requests = s;
      jobs =
          if str_eq kind (codes "tariff")
          then schedule_polls modem_id poll_delays w.jobs
          else w.jobs;
    },
    finished reply,
  )

  unfoldable pub finish_session :
      Str → Str → Str → Str → SessionResult → UssdWorld → UssdWorld × SessionOutcome
  unfolding after_reply
  finish_session id modem_id kind now (line []) w =
      (w, thrown (record { message = codes "No USSD reply"; unrecoverable = false }))
  finish_session id modem_id kind now (line (c ∷ s)) w =
      after_reply modem_id kind (c ∷ s) (complete_request db id (success (c ∷ s) now) w.requests) w
  finish_session id modem_id kind now silent w =
      (w, thrown (record { message = codes "No USSD reply"; unrecoverable = false }))
  finish_session id modem_id kind now (broken message) w =
      (w, thrown (record { message = message; unrecoverable = false }))

  -- The worker on a session whose modem is looked up.
  unfoldable pub run_on :
      Option Modem → Str → Str → Str → Str → SessionResult → UssdWorld → UssdWorld × SessionOutcome
  unfolding finish_session
  run_on none id modem_id kind now result w = (
    w,
    thrown (record {
      message = codes "Unknown modem \"" ++ (modem_id ++ codes "\"");
      unrecoverable = true;
    }),
  )
  run_on (some m) id modem_id kind now result w =
      if not m.supports_ussd
      then (
        w,
        thrown (record {
          message =
              codes "USSD is not supported on modem \""
              ++ (modem_id ++ (codes "\" (" ++ (m.driver ++ codes " driver)")));
          unrecoverable = true;
        }),
      )
      else finish_session id modem_id kind now result w

  unfoldable pub process_session :
      List Modem → Str → Str → Str → Str → SessionResult → UssdWorld → UssdWorld × SessionOutcome
  unfolding run_on
  process_session pool id modem_id kind now result w =
      run_on (Pool.get pool modem_id) id modem_id kind now result w

  -- The `failed` handler on a job of a session; on an inbox poll it does nothing.
  unfoldable pub on_session_failed : Str → ℕ → Option ℕ → UssdError → Str → UssdWorld → UssdWorld
  unfolding settle_failed
  on_session_failed id attempts_made attempts err now w =
      if err.unrecoverable || leb (attempts_or_one attempts) attempts_made
      then settle_failed id err.message now w
      else w
