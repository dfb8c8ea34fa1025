-- ===== src/Router/Ussd.antt =====
-- router/router.js: the USSD values, live or stored, and the queueing of sessions.
pub mod Live
use modem_sms_gateway.Prelude.{
  Bool, true, false, not, List, [], ◌∷◌, ◌++◌, Option, none, some, Str, codes, is_empty,
  if◌then◌else◌,
}
use modem_sms_gateway.Pool
use modem_sms_gateway.Pool.{Modem}
use modem_sms_gateway.Ussd.Store.{
  Request, UssdRow, UssdTable, create_request, complete_request, latest_done,
}
use modem_sms_gateway.Store.Query.{Selects}
use modem_sms_gateway.Ussd.Worker.{
  SessionResult, line, silent, broken, UssdQueue, failure, success, UssdWorld, enqueue_ussd,
}

-- What is shown of one modem.
pub record Shown : Type 0 where
  pub value : Option Str
  pub error : Option Str
  pub checked_at : Option Str
  pub request_id : Option Str

abbrev pub shown_error : Str → Option Str → Shown
shown_error message id = record {
  value = none;
  error = some message;
  checked_at = none;
  request_id = id;
}

-- `targets`: all modems, or the one that is asked for; `none` where that one is unknown.
unfoldable pub targets_of : List Modem → Option Str → Option (List Modem)
targets_of pool none = some pool
targets_of pool (some []) = some pool
targets_of pool (some (c ∷ s)) = elim (Pool.get pool (c ∷ s)) [
  | none ↦ none
  | some m ↦ some (m ∷ [])
]

unfoldable pub ussd_capable : List Modem → List Modem
ussd_capable [] = []
ussd_capable (m ∷ ms) = (if m.supports_ussd then m ∷ [] else []) ++ ussd_capable ms

-- `db_error` is the text of an exception of the database.
module _ (db : UssdTable) (db_error : Str) where
  abbrev pub state_or : {A : Type 0} → Option (db.State × A) → db.State → db.State
  state_or none s = s
  state_or (some (s', a)) s = s'

  -- The `catch` branch, whose own exception is dropped.
  unfoldable pub show_failure : Request → Str → Str → db.State → db.State × Shown
  show_failure r message now s = (
    state_or (complete_request db r.id (failure message now) s) s,
    shown_error message (some r.id),
  )

  abbrev pub after_silence :
      Request → Str → Option (db.State × Option Request) → db.State → db.State × Shown
  after_silence r now none s = show_failure r db_error now s
  after_silence r now (some (s', r')) s = (s', shown_error (codes "No USSD reply") (some r.id))

  -- Without the row there is no `done.completedAt`.
  abbrev pub after_reply :
      Request → Str → Str → Option (db.State × Option Request) → db.State → db.State × Shown
  after_reply r reply now none s = show_failure r db_error now s
  after_reply r reply now (some (s', none)) s =
      show_failure r (codes "Cannot read properties of null") now s'
  after_reply r reply now (some (s', some done)) s = (
    s',
    record {
      value = some reply;
      error = none;
      checked_at = done.completed_at;
      request_id = some r.id;
    },
  )

  unfoldable pub finish_live : Request → SessionResult → Str → db.State → db.State × Shown
  unfolding show_failure
  finish_live r (line []) now s =
      after_silence r now (complete_request db r.id (failure (codes "No USSD reply") now) s) s
  finish_live r (line (c ∷ t)) now s =
      after_reply r (c ∷ t) now (complete_request db r.id (success (c ∷ t) now) s) s
  finish_live r silent now s =
      after_silence r now (complete_request db r.id (failure (codes "No USSD reply") now) s) s
  finish_live r (broken message) now s = show_failure r message now s

  -- `runUssdNow`; `none` is the exception of `createRequest`.
  unfoldable pub run_ussd_now : Request → SessionResult → Str → db.State → Option (db.State × Shown)
  unfolding finish_live
  run_ussd_now r result now s = elim (create_request db r s) [
    | none ↦ none
    | some s' ↦ some (finish_live r result now s')
  ]

  abbrev pub unsupported : Modem → Str
  unsupported m = codes "USSD is not supported on the " ++ (m.driver ++ codes " driver")

  abbrev pub shown_request : Str → Option Request → Shown
  shown_request kind none =
      shown_error
        (codes "No stored "
          ++ (kind ++ (codes " yet — POST /sms/" ++ (kind ++ codes "/refresh or use ?live=true"))))
        none
  shown_request kind (some r) = record {
    value = r.reply;
    error = none;
    checked_at = r.completed_at;
    request_id = some r.id;
  }

  module _ (sel : Selects UssdRow (λ r. r.id) db) where
    abbrev pub stored_entry : Modem → Str → Option (Option Request) → Option (Str × Shown)
    stored_entry m kind none = none
    stored_entry m kind (some last) = some (m.id, shown_request kind last)

    -- One entry of a view that is not live; `none` is an exception of the database.
    unfoldable pub view_stored : Str → Modem → db.State → Option (Str × Shown)
    unfolding latest_done
    view_stored kind m s =
        if not m.supports_ussd
        then some (m.id, shown_error (unsupported m) none)
        else stored_entry m kind (latest_done db sel m.id kind s)

-- The answers to a refresh: 400, 400, 400, 500 and 202.
pub data Refresh : Type 0 where
  no_such_modem not_supported none_capable queue_failed : Refresh
  queued : List Request → Refresh

module _ (db : UssdTable) (queue : UssdQueue) (db_error : Str) where
  abbrev pub W : Type 0
  W = UssdWorld db queue db_error

  abbrev pub and_request : Option Request → Option (List Request) → Option (List Request)
  and_request none rs = none
  and_request (some r) none = none
  and_request (some r) (some rs) = some (r ∷ rs)

  -- `Promise.all`: each session is queued, also when another one fails. `make` gives the row for a
  -- modem, `message` and `later` are those of `enqueueUssd`.
  unfoldable pub enqueue_all :
      (Modem → Request) → Str → Str → List Modem → W → W × Option (List Request)
  unfolding enqueue_ussd
  enqueue_all make message later [] w = (w, some [])
  enqueue_all make message later (m ∷ ms) w =
      let first = enqueue_ussd db queue db_error (make m) message later w in
      let rest = enqueue_all make message later ms first.0 in (rest.0, and_request first.1 rest.1)

  abbrev pub refresh_answer : W × Option (List Request) → W × Refresh
  refresh_answer (w, none) = (w, queue_failed)
  refresh_answer (w, some rs) = (w, queued rs)

  abbrev pub refresh_targets : (Modem → Request) → Str → Str → List Modem → W → W × Refresh
  refresh_targets make message later [] w = (w, none_capable)
  refresh_targets make message later (m ∷ ms) w =
      refresh_answer (enqueue_all make message later (m ∷ ms) w)

  -- `queueUssdRefresh(kind)`.
  unfoldable pub queue_ussd_refresh :
      List Modem → Option Str → (Modem → Request) → Str → Str → W → W × Refresh
  unfolding ussd_capable enqueue_all
  queue_ussd_refresh pool none make message later w =
      refresh_targets make message later (ussd_capable pool) w
  queue_ussd_refresh pool (some []) make message later w =
      refresh_targets make message later (ussd_capable pool) w
  queue_ussd_refresh pool (some (c ∷ s)) make message later w = elim (Pool.get pool (c ∷ s)) [
    | none ↦ (w, no_such_modem)
    | some m ↦
        if not m.supports_ussd
        then (w, not_supported)
        else refresh_targets make message later (ussd_capable (m ∷ [])) w
  ]
