-- ===== src/Tests/Sessions.antt =====
-- The USSD table and its worker on concrete sessions.
use modem_sms_gateway.Prelude.{
  ◌≡◌, ◌≤◌, ◌<◌, ◌⊎◌, refl, true, false, List, [], ◌∷◌, Option, some, Str, codes,
}
use modem_sms_gateway.Pool
use modem_sms_gateway.Store.Table.{map_option, row_count}
use modem_sms_gateway.Worker.Send.{attempts_or_one}
use modem_sms_gateway.Ussd.Store.{
  UssdRow, Request, Completion, UssdTable, to_ussd_row, complete_row, complete_request, completed,
}
use modem_sms_gateway.Ussd.Store.Laws.{settled}
use modem_sms_gateway.Ussd.Worker.{
  UssdJob, UssdQueue, line, UssdError, failure, pending_request, UssdWorld, enqueue_ussd,
  process_session, on_session_failed,
}
use modem_sms_gateway.Ussd.Worker.Laws.{
  SessionEnds, request_at, enqueue_ussd_lem, on_session_failed_lem,
}
use modem_sms_gateway.Ussd.Worker.Run.{RunEnds, process_session_lem}
use modem_sms_gateway.Tests.Tables.{list_table, list_queue, find_row, update_row}
use modem_sms_gateway.Tests.Sends.{two_modems}

abbrev db : UssdTable
db = list_table (λ r. r.id)

abbrev queue : UssdQueue
queue = list_queue UssdJob

abbrev db_error : Str
db_error = codes "database is locked"

abbrev request : Request
request =
    pending_request (codes "u-1") (codes "modem-1") (codes "balance") (codes "*0800#") (codes "t0")

abbrev rows : List UssdRow
rows = to_ussd_row request ∷ []

abbrev nothing_queued : UssdWorld db queue db_error
nothing_queued = record { requests = []; jobs = [] }

abbrev one_queued : UssdWorld db queue db_error
one_queued = record { requests = rows; jobs = [] }

completes :
    (id : Str) (done : Completion) (s : List UssdRow)
    → (s' : List UssdRow) × (r : Option Request) × (complete_request db id done s ≡ some (s', r))
completes id done s = (
  update_row (λ r. r.id) id (complete_row done) s,
  (completed db id
      (update_row (λ r. r.id) id (complete_row done) s, row_count (find_row (λ r. r.id) id s))).1,
  unfold complete_request completed in refl,
)

enqueue_ussd_lem_example :
    SessionEnds db queue db_error request
      (codes "redis is down")
      (codes "t1")
      nothing_queued
      (enqueue_ussd db queue db_error request (codes "redis is down") (codes "t1") nothing_queued)
enqueue_ussd_lem_example =
    enqueue_ussd_lem db queue db_error completes (codes "u-1") (codes "modem-1") (codes "balance")
      (codes "*0800#") (codes "t0") (codes "redis is down") (codes "t1") nothing_queued

process_session_lem_example :
    RunEnds db queue db_error
      (Pool.get two_modems (codes "modem-1"))
      (codes "u-1")
      (codes "t2")
      (line (codes "+CUSD: 0"))
      one_queued
      (process_session db queue db_error two_modems
        (codes "u-1")
        (codes "modem-1")
        (codes "balance")
        (codes "t2")
        (line (codes "+CUSD: 0"))
        one_queued)
process_session_lem_example =
    process_session_lem db queue db_error two_modems (codes "u-1") (codes "modem-1")
      (codes "balance") (codes "t2") (line (codes "+CUSD: 0")) one_queued

abbrev no_reply : UssdError
no_reply = record { message = codes "No USSD reply"; unrecoverable = false }

on_session_failed_lem_example :
    let w' =
      on_session_failed db queue db_error
        (codes "u-1")
        2
        (some 2)
        no_reply
        (codes "t3")
        one_queued in
    (((no_reply.unrecoverable ≡ true) ⊎ (attempts_or_one (some 2) ≤ 2))
      × (request_at db queue db_error (codes "u-1") w'
          ≡ map_option
              (settled (failure no_reply.message (codes "t3")))
              (request_at db queue db_error (codes "u-1") one_queued)))
    ⊎ ((no_reply.unrecoverable ≡ false) × (2 < attempts_or_one (some 2)) × (w' ≡ one_queued))
on_session_failed_lem_example =
    on_session_failed_lem db queue db_error completes (codes "u-1") 2 (some 2) no_reply (codes "t3")
      one_queued
