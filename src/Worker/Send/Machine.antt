-- ===== src/Worker/Send/Machine.antt =====
-- config/bull.config.js: the status of a logged SMS as an abstract machine.
use modem_sms_gateway.Prelude.{
  ◌≡◌, refl, ◌⊎◌, Bool, true, false, List, [], ◌∷◌, Option, none, some, is_some, Str,
}
use modem_sms_gateway.Pool.{Modem}
use modem_sms_gateway.Webhook.Payload.{
  pending_status, sent_status, failed_status, unconfirmed_status, retrying_status,
}
use modem_sms_gateway.Worker.Send.{
  SendJob, SendResult, accepted, rejected, choose_modem, pinned, send_error,
}
use modem_sms_gateway.Worker.Send.Life.{Attempt}

-- What is known of an SMS.
pub data Phase : Type 0 where
  pending retrying sent failed unconfirmed : Phase

abbrev pub phase_status : Phase → Str
phase_status pending = pending_status
phase_status retrying = retrying_status
phase_status sent = sent_status
phase_status failed = failed_status
phase_status unconfirmed = unconfirmed_status

abbrev pub is_open : Phase → Bool
is_open pending = true
is_open retrying = true
is_open sent = false
is_open failed = false
is_open unconfirmed = false

-- What an attempt heard of the SMS: a modem took it, a modem's confirmation timed out, or nothing was
-- taken.
pub data Heard : Type 0 where
  taken unanswered not_taken : Heard

abbrev pub failed_heard : Bool → Heard
failed_heard true = unanswered
failed_heard false = not_taken

abbrev pub heard_result : SendResult → Heard
heard_result (accepted reference) = taken
heard_result (rejected message timeout) = failed_heard timeout

abbrev pub heard_from : Option Modem → (Modem → SendResult) → Heard
heard_from none result = not_taken
heard_from (some m) result = heard_result (result m)

abbrev pub heard : SendJob → Attempt → Heard
heard job a = heard_from (choose_modem a.pool a.rr job.modem).0 a.result

-- The contract: an open SMS that was taken is sent; one whose confirmation timed out is unconfirmed; and
-- one that was not taken has failed or will be tried again.
pub data Move : Phase → Heard → Phase → Type 0 where
  deliver : (p : Phase) → is_open p ≡ true → Move p taken sent
  doubt : (p : Phase) → is_open p ≡ true → Move p unanswered unconfirmed
  give_up : (p : Phase) → is_open p ≡ true → Move p not_taken failed
  try_again : (p : Phase) → is_open p ≡ true → Move p not_taken retrying

pub data Moves : Phase → List Heard → Phase → Type 0 where
  no_move : (p : Phase) → Moves p [] p
  then_moves :
      (p q r : Phase) (h : Heard) (hs : List Heard) → Move p h q → Moves q hs r → Moves p (h ∷ hs) r

pub send_error-heard :
    (m : Modem) (message : Str) (timeout : Bool)
    → failed_heard timeout ≡ failed_heard (send_error m message timeout).unrecoverable
unfolding send_error
send_error-heard m message true = refl
send_error-heard m message false = refl

-- A job that is pinned to a modem finds it.
abbrev pub Finds : SendJob → Attempt → Type 0
Finds job a =
    (is_some (pinned job.modem) ≡ false)
    ⊎ ((m : Modem) × ((choose_modem a.pool a.rr job.modem).0 ≡ some m))
