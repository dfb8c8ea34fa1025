-- ===== src/Worker/Send.antt =====
-- config/bull.config.js: the worker that sends one queued SMS, and the handler of failed attempts.
-- The modem's answer, the times and the database are the environment's.
pub mod Laws
pub mod Life
pub mod Lifecycle
pub mod Machine
pub mod Filing
use modem_sms_gateway.Prelude.{
  ℕ, zero, suc, ◌+◌, ◌-◌, ◌*◌, Bool, true, false, not, ◌&&◌, ◌||◌, List, [], ◌∷◌, ◌++◌, Option,
  none, some, Str, codes, leb, ltb, ◌==◌, if◌then◌else◌, or_else, is_empty, map_get, map_set,
}
use modem_sms_gateway.Pool
use modem_sms_gateway.Pool.{Modem}
use modem_sms_gateway.Store.LogStore.{Entry, Patch, no_patch, SentTable, update_log}
use modem_sms_gateway.Webhook.Payload.{
  sent_status, failed_status, unconfirmed_status, retrying_status,
}
use modem_sms_gateway.Webhook.Sender.{Platform, Config, DeliveryQueue, enqueue_webhook}

-- `job.data`.
pub record SendJob : Type 0 where
  pub to : Str
  pub message : Str
  pub log_id : Str
  pub modem : Option Str

-- What `modem.sendSMS` gives: a reference, or an error that may carry `confirmTimeout`.
pub data SendResult : Type 0 where
  accepted : Option Str → SendResult
  rejected : Str → Bool → SendResult

-- An error that the worker throws: its message, whether it is an `UnrecoverableError`, and its
-- `modemId`.
pub record SendError : Type 0 where
  pub message : Str
  pub unrecoverable : Bool
  pub modem_id : Option Str

pub data Outcome : Type 0 where
  done : Option Str → Str → Outcome
  thrown : SendError → Outcome

-- A pinned modem that is not empty; `if (modemId)` takes an empty text for none.
unfoldable pub pinned : Option Str → Option Str
pinned none = none
pinned (some []) = none
pinned (some (c ∷ s)) = some (c ∷ s)

-- The modem of a job and the next counter of the pool; `none` is no such modem, or an empty pool.
unfoldable pub choose_modem : List Modem → ℕ → Option Str → Option Modem × ℕ
unfolding pinned
choose_modem pool rr wanted = elim (pinned wanted) [
  | some id ↦ (Pool.get pool id, rr)
  | none ↦ Pool.pick pool rr
]

unfoldable pub unknown_modem : Str → SendError
unknown_modem id = record {
  message = codes "Unknown modem \"" ++ (id ++ codes "\"");
  unrecoverable = true;
  modem_id = none;
}

-- Without a pinned modem and with an empty pool, `waitForModem(undefined)` throws a TypeError.
unfoldable pub no_modem : SendError
no_modem = record {
  message = codes "Cannot read properties of undefined (reading 'isConnected')";
  unrecoverable = false;
  modem_id = none;
}

unfoldable pub choose_error : Option Str → SendError
unfolding pinned unknown_modem no_modem
choose_error wanted = elim (pinned wanted) [ none ↦ no_modem | some id ↦ unknown_modem id ]

-- The error for a failed `sendSMS`: a timed-out confirmation becomes an `UnrecoverableError`, which
-- does not carry the modem's id.
unfoldable pub send_error : Modem → Str → Bool → SendError
send_error modem message confirm_timeout =
    if confirm_timeout
    then record {
      message = codes "Send unconfirmed via \"" ++ (modem.id ++ (codes "\": " ++ message));
      unrecoverable = true;
      modem_id = none;
    }
    else record { message = message; unrecoverable = false; modem_id = some modem.id }

-- The patch after a send.
abbrev pub sent_patch : Str → Option Str → Str → Patch
sent_patch now reference modem_id = record {
  status = some sent_status;
  error = some none;
  sent_at = some (some now);
  reference = some reference;
  modem_id = some (some modem_id);
}

-- The status that the `failed` handler writes.
unfoldable pub failure_status : Bool → Bool → Str
failure_status unconfirmed is_final =
    if unconfirmed
    then unconfirmed_status
    else (if is_final then failed_status else retrying_status)

abbrev pub failure_patch : Str → SendError → Patch
failure_patch status err = record no_patch {
  status = some status;
  error = some (some err.message);
  modem_id = elim (pinned err.modem_id) [ none ↦ none | some id ↦ some (some id) ];
}

-- `job.attemptsMade >= (job.opts.attempts || 1)`.
abbrev pub attempts_or_one : Option ℕ → ℕ
attempts_or_one none = 1
attempts_or_one (some zero) = 1
attempts_or_one (some (suc n)) = suc n

unfoldable pub is_final_attempt : SendError → ℕ → Option ℕ → Bool
is_final_attempt err attempts_made attempts =
    err.unrecoverable || leb (attempts_or_one attempts) attempts_made

abbrev pub balance_check_min_interval_ms : ℕ
balance_check_min_interval_ms = 600000

-- When each modem's balance was last asked for, and the modems for which it was asked, in order.
pub record BalanceChecks : Type 0 where
  pub last_check_at : List (Str × ℕ)
  pub requested : List Str

unfoldable pub check_known : Option Modem → ℕ → BalanceChecks → BalanceChecks
check_known none now b = b
check_known (some modem) now b =
    if not modem.supports_ussd
    then b
    else (if ltb (now - or_else (map_get b.last_check_at modem.id) 0) balance_check_min_interval_ms
        then b
        else record {
          last_check_at = map_set b.last_check_at modem.id now;
          requested = b.requested ++ modem.id ∷ [];
        })

-- `maybeCheckBalance(modemId)` at the time `now`, in milliseconds.
unfoldable pub maybe_check_balance : List Modem → Option Str → ℕ → BalanceChecks → BalanceChecks
unfolding check_known pinned
maybe_check_balance pool modem_id now b = elim (pinned modem_id) [
  | none ↦ b
  | some id ↦ check_known (Pool.get pool id) now b
]

module _ (db : SentTable) (queue : DeliveryQueue) (p : Platform) (c : Config) where
  pub record World : Type 0 where
    pub log : db.State
    pub webhooks : queue.State

  -- A written entry is reported; an error of the database is caught.
  unfoldable pub report : Option (db.State × Option Entry) → ℕ → Str → World → World
  report none attempt now w = w
  report (some (log, entry)) attempt now w = record {
    log = log;
    webhooks = enqueue_webhook queue p c entry (some attempt) now w.webhooks;
  }

  -- The worker's function on a job whose modem is chosen and whose send has the given result.
  unfoldable pub finish_send : SendJob → ℕ → Modem → SendResult → Str → World → World × Outcome
  unfolding report send_error
  finish_send job attempts_made modem (accepted reference) now w = (
    report (update_log db job.log_id (sent_patch now reference modem.id) w.log) attempts_made now w,
    done reference modem.id,
  )
  finish_send job attempts_made modem (rejected message timeout) now w =
      (w, thrown (send_error modem message timeout))

  -- The worker's function: `result` is what the chosen modem will answer. The wait for the modem,
  -- which changes none of this state, is in Worker.Wait.
  unfoldable pub process_send :
      List Modem → ℕ → SendJob → ℕ → (Modem → SendResult) → Str → World → World × Outcome
  unfolding choose_modem choose_error finish_send
  process_send pool rr job attempts_made result now w = elim (choose_modem pool rr job.modem).0 [
    | none ↦ (w, thrown (choose_error job.modem))
    | some modem ↦ finish_send job attempts_made modem (result modem) now w
  ]

  -- The `failed` handler up to the balance check.
  unfoldable pub record_failure : SendJob → ℕ → Option ℕ → SendError → Str → World → World
  unfolding report failure_status is_final_attempt
  record_failure job attempts_made attempts err now w =
      report
        (update_log db job.log_id
          (failure_patch
            (failure_status err.unrecoverable (is_final_attempt err attempts_made attempts)) err)
          w.log)
        attempts_made now w

  -- The whole handler; a missing job only makes a line of the console.
  unfoldable pub on_failed :
      List Modem
      → Option SendJob
      → ℕ
      → Option ℕ
      → SendError
      → Str
      → ℕ
      → World × BalanceChecks
      → World × BalanceChecks
  unfolding record_failure maybe_check_balance is_final_attempt
  on_failed pool none attempts_made attempts err now now_ms (w, b) = (w, b)
  on_failed pool (some job) attempts_made attempts err now now_ms (w, b) = (
    record_failure job attempts_made attempts err now w,
    if is_final_attempt err attempts_made attempts && not err.unrecoverable
        then maybe_check_balance pool err.modem_id now_ms b
        else b,
  )
