-- ===== src/Router/Send.antt =====
-- router/router.js: `POST /send` behind `validateSend`, and `GET /status/:id`.
pub mod Laws
use modem_sms_gateway.Prelude.{ℕ, Bool, true, false, List, [], ◌∷◌, Option, none, some, Str}
use modem_sms_gateway.Store.LogStore.{
  Entry, Patch, no_patch, SentTable, append_log, get_log, update_log,
}
use modem_sms_gateway.Webhook.Payload.{pending_status, failed_status}
use modem_sms_gateway.Webhook.Queue.{JobQueue}
use modem_sms_gateway.Webhook.Sender.{Platform, Config, DeliveryQueue, enqueue_webhook}
use modem_sms_gateway.Worker.Send.{SendJob}
use modem_sms_gateway.Router.Validate.{SendRequest}

-- What the request brings beside its body, and what the platform makes up: the log id, the time, and
-- the text of an exception if there is one.
pub record Call : Type 0 where
  pub id : Str
  pub now : Str
  pub ip : Option Str
  pub error_text : Str

-- 202 with the log id, or 500 with the text of the exception.
pub data Answer : Type 0 where
  queued : Str → Answer
  server_error : Str → Answer

unfoldable pub log_entry : Call → SendRequest → Entry
log_entry call r = record {
  id = call.id;
  timestamp = call.now;
  to = r.to;
  message = r.message;
  project_name = some r.project_name;
  ip = call.ip;
  status = pending_status;
  error = none;
  sent_at = none;
  reference = none;
  modem_id = r.modem;
  client_ref = r.client_ref;
  callback_url = r.callback_url;
}

-- The job's data; `projectName`, which the worker does not read, is left out.
unfoldable pub send_job : Call → SendRequest → SendJob
send_job call r = record { to = r.to; message = r.message; log_id = call.id; modem = r.modem }

abbrev pub failed_patch : Str → Patch
failed_patch message = record no_patch { status = some failed_status; error = some (some message) }

module _ (db : SentTable) (jobs : JobQueue SendJob) (queue : DeliveryQueue) (p : Platform)
    (c : Config) where
  pub record Gateway : Type 0 where
    pub log : db.State
    pub sends : jobs.State
    pub webhooks : queue.State

  -- The `catch` block: what `updateLog` gives, an exception being `null`.
  unfoldable pub mark_failed : Option (db.State × Option Entry) → Str → Gateway → Gateway
  mark_failed none now g = g
  mark_failed (some (log, none)) now g = record g { log = log }
  mark_failed (some (log, some entry)) now g = record g {
    log = log;
    webhooks = enqueue_webhook queue p c (some entry) none now g.webhooks;
  }

  unfoldable pub fail_send : Call → Gateway → Gateway × Answer
  unfolding mark_failed
  fail_send call g = (
    mark_failed (update_log db call.id (failed_patch call.error_text) g.log) call.now g,
    server_error call.error_text,
  )

  -- After the entry is logged.
  unfoldable pub queue_send : Call → Option jobs.State → Gateway → Gateway × Answer
  unfolding fail_send
  queue_send call none g = fail_send call g
  queue_send call (some sends) g = (record g { sends = sends }, queued call.id)

  -- After `appendLog`.
  unfoldable pub log_send : Call → SendRequest → Option db.State → Gateway → Gateway × Answer
  unfolding fail_send queue_send send_job
  log_send call r none g = fail_send call g
  log_send call r (some log) g =
      queue_send call (jobs.add (send_job call r) g.sends) (record g { log = log })

  -- The handler of `POST /send`.
  unfoldable pub handle_send : Call → SendRequest → Gateway → Gateway × Answer
  unfolding log_send log_entry
  handle_send call r g = log_send call r (append_log db (log_entry call r) g.log) g

  -- The handler of `GET /status/:id`: `none` is the answer 404.
  unfoldable pub handle_status : Str → Gateway → Option Entry
  handle_status id g = get_log db id g.log
