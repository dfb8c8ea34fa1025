-- ===== src/Worker/Send/Filing.antt =====
-- config/bull.config.js: which status the `failed` handler files for which failure of an attempt.
use modem_sms_gateway.Prelude.{
  ℕ, ◌≤◌, ◌<◌, ◌≡◌, ◌⊎◌, true, false, List, Option, none, some, Str, is_some,
}
use modem_sms_gateway.Pool.{Modem}
use modem_sms_gateway.Store.LogStore.{SentTable}
use modem_sms_gateway.Webhook.Payload.{failed_status, unconfirmed_status, retrying_status}
use modem_sms_gateway.Webhook.Sender.{Platform, Config, DeliveryQueue}
use modem_sms_gateway.Worker.Send.{
  SendJob, SendResult, rejected, SendError, choose_modem, pinned, attempts_or_one,
}

module _ (db : SentTable) (queue : DeliveryQueue) (p : Platform) (c : Config) where
  -- By what happened to the attempt: the chosen modem's confirmation timed out; the job is pinned to a
  -- modem that the pool does not have; or any other failure, on the last attempt or before.
  abbrev pub FiledBy :
      List Modem → ℕ → SendJob → (Modem → SendResult) → SendError → ℕ → Option ℕ → Str → Type 0
  FiledBy pool rr job result err made attempts status =
      ((m : Modem) × (message : Str) × ((choose_modem pool rr job.modem).0 ≡ some m)
        × (result m ≡ rejected message true)
        × (status ≡ unconfirmed_status))
      ⊎ (((choose_modem pool rr job.modem).0 ≡ none)
          × (is_some (pinned job.modem) ≡ true)
          × (status ≡ unconfirmed_status))
      ⊎ ((err.unrecoverable ≡ false) × (attempts_or_one attempts ≤ made) × (status ≡ failed_status))
      ⊎ ((err.unrecoverable ≡ false)
          × (made < attempts_or_one attempts)
          × (status ≡ retrying_status))
