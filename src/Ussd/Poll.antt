-- ===== src/Ussd/Poll.antt =====
-- config/ussd.config.js: the job that looks into the inbox of a serial modem after a tariff session.
use modem_sms_gateway.Prelude.{ℕ, List, Option, none, some, Str, length}
use modem_sms_gateway.Prelude.Actions.{Result, ok, err}
use modem_sms_gateway.Pool
use modem_sms_gateway.Pool.{Modem}
use modem_sms_gateway.Serial.Session.{Io}
use modem_sms_gateway.Serial.Inbox.Sync.{fetch_and_store}
use modem_sms_gateway.Store.InboxStore.{Inbound, InboxTable}

-- `{ fetched: messages.length }`.
abbrev pub fetched_count : Result (List Inbound) → Result ℕ
fetched_count (ok messages) = ok (length messages)
fetched_count (err e) = err e

module _ (db : InboxTable) (now db_error : Str) where
  unfoldable pub poll_modem : Option Modem → db.State → Io → (Io × db.State) × Result ℕ
  unfolding fetch_and_store
  poll_modem none s io = ((io, s), ok 0)
  poll_modem (some m) s io =
      let r = fetch_and_store db m.id now db_error s io in (r.0, fetched_count r.1)

  -- The worker on a job `poll-inbox`.
  unfoldable pub process_poll : List Modem → Str → db.State → Io → (Io × db.State) × Result ℕ
  unfolding poll_modem
  process_poll pool modem_id s io = poll_modem (Pool.get pool modem_id) s io
