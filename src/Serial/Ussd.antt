-- ===== src/Serial/Ussd.antt =====
-- utils/modem.js: `runUssd` on a port whose text arrives in chunks, with the timers of its command and
-- of its waiter. The promises that the dialogue settles take the session on.
pub mod Ends
use modem_sms_gateway.Prelude.{
  ℕ, Bool, true, false, List, [], ◌∷◌, ◌++◌, Option, none, some, Str, codes, ◌==◌, if◌then◌else◌,
}
use modem_sms_gateway.Prelude.Actions.{Result, ok, err, plain_error}
use modem_sms_gateway.Serial.Lines.{
  Command, Waiter, Event, resolved, rejected, timed_out, notified, unsolicited, Dialogue, Serial,
  settle_current, fail_current_command, handle_data, start_command, command_timeout, wait_for_urc,
  waiter_timeout,
}

-- The session waits for `AT+CSCS`, for `AT+CUSD` with what its waiter was told by then, or for its
-- waiter; or it is over.
pub data Phase : Type 0 where
  setting awaiting : Phase
  dialing : Option (Option Str) → Phase
  ended : Result (Option Str) → Phase

pub record UssdPort : Type 0 where
  pub connected : Bool
  pub written : List Str
  pub serial : Serial
  pub phase : Phase

-- What may happen on a port; `write_failed` is the error that the callback of `port.write` is given.
pub data Happening : Type 0 where
  arrived : List ℕ → Happening
  write_failed : Str → Happening
  command_timer waiter_timer : ℕ → Happening
  lost reopened shut_down : Happening

abbrev pub on_dialogue : (Dialogue → Dialogue) → UssdPort → UssdPort
on_dialogue f p = record p { serial = record p.serial { dialogue = f p.serial.dialogue } }

-- A timer that was cleared, or has fired, does not fire.
unfoldable pub has_waiter : ℕ → List Waiter → Bool
has_waiter id [] = false
has_waiter id (w ∷ ws) = let rest = has_waiter id ws in if w.id == id then true else rest

unfoldable pub command_expires : ℕ → Option Command → Dialogue → Dialogue
unfolding command_timeout
command_expires now none d = d
command_expires now (some cmd) d = command_timeout now cmd.label d

unfoldable pub waiter_expires : ℕ → Dialogue → Dialogue
unfolding has_waiter waiter_timeout
waiter_expires id d = if has_waiter id d.waiters then waiter_timeout id d else d

unfoldable pub happen : Happening → UssdPort → UssdPort
unfolding handle_data settle_current command_expires waiter_expires fail_current_command
happen (arrived chunk) p = record p { serial = handle_data chunk p.serial }
happen (write_failed message) p =
    on_dialogue (settle_current (some (codes "Serial write failed: " ++ message))) p
happen (command_timer now) p = on_dialogue (λ d. command_expires now d.current d) p
happen (waiter_timer id) p = on_dialogue (waiter_expires id) p
happen lost p = record (on_dialogue (fail_current_command (codes "Serial port closed")) p) {
  connected = false;
}
happen shut_down p = on_dialogue (fail_current_command (codes "Shutting down")) p
happen reopened p = record p { connected = true; serial = record p.serial { rx_buffer = [] } }

-- A command of the session, after the sleep of `transact` that is in Lines.Quiet; on a port that is not
-- connected it is rejected.
unfoldable pub issue : Str → Str → Phase → UssdPort → UssdPort
unfolding start_command
issue text label next p =
    if p.connected
    then record p {
      serial = start_command true label false p.serial;
      written = p.written ++ (text ++ 0x0d ∷ []) ∷ [];
      phase = next;
    }
    else record p { phase = ended (err (plain_error (codes "Modem is not connected"))) }

abbrev pub timeout_error : Str → Result (Option Str)
timeout_error label = err (record {
  message = codes "Timed out waiting for modem response to " ++ label;
  timeout = true;
  confirm_timeout = false;
})

abbrev pub after_dial : Option (Option Str) → Phase
after_dial none = awaiting
after_dial (some reply) = ended (ok reply)

-- `id` is the session's waiter, and `code` what is dialled.
module _ (id : ℕ) (code : Str) where
  -- After `AT+CSCS`: the waiter, and `AT+CUSD`.
  unfoldable pub dial : UssdPort → UssdPort
  unfolding wait_for_urc issue
  dial p =
      issue (codes "AT+CUSD=1,\"" ++ (code ++ codes "\",15")) (codes "CUSD") (dialing none)
        (on_dialogue (wait_for_urc id (codes "+CUSD")) p)

  unfoldable pub while_setting : Event → UssdPort → UssdPort
  unfolding dial
  while_setting (resolved lines) p = dial p
  while_setting (rejected message) p = record p { phase = ended (err (plain_error message)) }
  while_setting (timed_out label) p = record p { phase = ended (timeout_error label) }
  while_setting (notified k reply) p = p
  while_setting (unsolicited line) p = p

  unfoldable pub while_dialing : Option (Option Str) → Event → UssdPort → UssdPort
  while_dialing told (resolved lines) p = record p { phase = after_dial told }
  while_dialing told (rejected message) p = record p { phase = ended (err (plain_error message)) }
  while_dialing told (timed_out label) p = record p { phase = ended (timeout_error label) }
  while_dialing told (notified k reply) p =
      if k == id then record p { phase = dialing (some reply) } else p
  while_dialing told (unsolicited line) p = p

  unfoldable pub while_awaiting : Event → UssdPort → UssdPort
  while_awaiting (resolved lines) p = p
  while_awaiting (rejected message) p = p
  while_awaiting (timed_out label) p = p
  while_awaiting (notified k reply) p = if k == id then record p { phase = ended (ok reply) } else p
  while_awaiting (unsolicited line) p = p

  -- A promise is settled: the function goes on.
  unfoldable pub resume_at : Event → Phase → UssdPort → UssdPort
  unfolding while_setting while_dialing while_awaiting
  resume_at e setting p = while_setting e p
  resume_at e (dialing told) p = while_dialing told e p
  resume_at e awaiting p = while_awaiting e p
  resume_at e (ended r) p = p

  unfoldable pub resume_all : List Event → UssdPort → UssdPort
  unfolding resume_at
  resume_all [] p = p
  resume_all (e ∷ es) p = resume_all es (resume_at e p.phase p)

  -- The functions that wait go on after what happened is handled.
  unfoldable pub resume : UssdPort → UssdPort
  unfolding resume_all
  resume p = resume_all p.serial.dialogue.events (on_dialogue (λ d. record d { events = [] }) p)

  unfoldable pub run_on_port : List Happening → UssdPort → UssdPort
  unfolding happen resume
  run_on_port [] p = p
  run_on_port (h ∷ hs) p = run_on_port hs (resume (happen h p))

  -- `runUssd` on a port that is otherwise unused, up to the end of the list.
  unfoldable pub run_ussd : List Happening → Bool → Serial → UssdPort
  unfolding run_on_port issue
  run_ussd hs connected serial = run_on_port hs (
      issue (codes "AT+CSCS=\"GSM\"") (codes "CSCS") setting
        (record { connected = connected; written = []; serial = serial; phase = setting }))
