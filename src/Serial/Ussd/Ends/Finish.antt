-- ===== src/Serial/Ussd/Ends/Finish.antt =====
-- utils/modem.js: `runUssd` returns a `+CUSD` line or nothing, and comes to an end.
use modem_sms_gateway.Prelude.{
  ℕ, ◌≡◌, refl, sym, ap, ◌∙◌, ◌⊎◌, inl, inr, Bool, true, false, List, [], ◌∷◌, ◌++◌, Option, some,
  Str, codes, All,
}
use mathlib.Core.Path.{subst}
use modem_sms_gateway.Prelude.Actions.{Result}
use modem_sms_gateway.Serial.Lines.{Event, Serial, start_command}
use modem_sms_gateway.Serial.Ussd.{
  Phase, setting, dialing, awaiting, ended, UssdPort, Happening, arrived, write_failed,
  command_timer, waiter_timer, lost, reopened, shut_down, on_dialogue, happen, issue, resume_at,
  resume_all, resume, run_on_port, run_ussd,
}
use modem_sms_gateway.Serial.Ussd.Ends.{IsCusd, IsSound, Good, Keeps, Keeps-refl}
use modem_sms_gateway.Serial.Ussd.Ends.Lines.{handle_data-Keeps, settle_current-Keeps}
use modem_sms_gateway.Serial.Ussd.Ends.Timers.{
  command_expires-Keeps, waiter_expires-Keeps, fail_current_command-Keeps,
}
use modem_sms_gateway.Serial.Ussd.Ends.Outcome.{
  EndsWell, is_ended, PhaseOk, PhaseOk-EndsWell, PhaseOk-Keeps, Next, resume_all-Next,
}
use modem_sms_gateway.Serial.Ussd.Ends.Expiry.{happen-phase, command_times_out, waiter_times_out}

happen-Keeps :
    (id : ℕ) (h : Happening) (p : UssdPort)
    → Keeps id p.serial.dialogue (happen h p).serial.dialogue
unfolding happen
happen-Keeps id (arrived chunk) p = handle_data-Keeps id chunk p.serial
happen-Keeps id (write_failed m) p =
    settle_current-Keeps id (some (codes "Serial write failed: " ++ m)) p.serial.dialogue
happen-Keeps id (command_timer now) p =
    command_expires-Keeps id now p.serial.dialogue.current p.serial.dialogue
happen-Keeps id (waiter_timer k) p = waiter_expires-Keeps id k p.serial.dialogue
happen-Keeps id lost p =
    fail_current_command-Keeps id (codes "Serial port closed") p.serial.dialogue
happen-Keeps id shut_down p =
    fail_current_command-Keeps id (codes "Shutting down") p.serial.dialogue
happen-Keeps id reopened p = Keeps-refl id p.serial.dialogue

module _ (id : ℕ) (code : Str) where
  resume-happen-Next :
      (h : Happening) (p : UssdPort) → Next id [] p → Next id [] (resume id code (happen h p))
  unfolding resume
  resume-happen-Next h p (cusd, n, k) =
      let q = happen h p in
      let good : Good p.serial.dialogue = (cusd, subst (All IsSound) (sym n) tt) in
      let ready : PhaseOk id p.phase p.serial.dialogue =
        subst (λ (es : List Event). PhaseOk id p.phase (record p.serial.dialogue { events = es }))
          (sym n) k in
      let (good', kept) = (happen-Keeps id h p good).0 in
      let ready' =
        PhaseOk-Keeps id p.phase p.serial.dialogue q.serial.dialogue (happen-Keeps id h p) good
          ready in
      resume_all-Next id code q.serial.dialogue.events
        (on_dialogue (λ d. record d { events = [] }) q) kept
        (good', refl, subst (λ ph. PhaseOk id ph q.serial.dialogue) (sym (happen-phase h p)) ready')

  run_on_port-Next :
      (hs : List Happening) (p : UssdPort) → Next id [] p → Next id [] (run_on_port id code hs p)
  unfolding run_on_port
  run_on_port-Next [] p k = k
  run_on_port-Next (h ∷ hs) p k =
      run_on_port-Next hs (resume id code (happen h p)) (resume-happen-Next h p k)

  -- A session that is over stays so.
  resume_all-ended :
      (es : List Event) (p : UssdPort) (r : Result (Option Str))
      → p.phase ≡ ended r
      → (resume_all id code es p).phase ≡ ended r
  unfolding resume_all resume_at
  resume_all-ended [] p r e = e
  resume_all-ended (x ∷ es) p r e = go p.phase e (resume_all-ended es p r e)
    where
      go :
          (ph : Phase)
          → ph ≡ ended r
          → (resume_all id code es p).phase ≡ ended r
          → (resume_all id code es (resume_at id code x ph p)).phase ≡ ended r
      go setting e' k = absurd (cc)
      go (dialing told) e' k = absurd (cc)
      go awaiting e' k = absurd (cc)
      go (ended r') e' k = k

  happen-ended :
      (h : Happening) (p : UssdPort) (ph : Phase)
      → p.phase ≡ ph
      → is_ended ph ≡ true
      → is_ended (resume id code (happen h p)).phase ≡ true
  unfolding resume
  happen-ended h p setting e k = absurd (cc)
  happen-ended h p (dialing told) e k = absurd (cc)
  happen-ended h p awaiting e k = absurd (cc)
  happen-ended h p (ended r) e k = ap is_ended (
      resume_all-ended (happen h p).serial.dialogue.events
        (on_dialogue (λ d. record d { events = [] }) (happen h p)) r (happen-phase h p ∙ e))

  timers_end :
      (now : ℕ) (p : UssdPort)
      → Next id [] p
      → is_ended (run_on_port id code (command_timer now ∷ waiter_timer id ∷ []) p).phase ≡ true
  unfolding run_on_port
  timers_end now p k =
      let clear : UssdPort → UssdPort = on_dialogue (λ d. record d { events = [] }) in
      let p1 = resume id code (happen (command_timer now) p) in
      let d = p.serial.dialogue in
      let same : clear p ≡ p =
        ap (λ (es : List Event). on_dialogue (λ e. record e { events = es }) p) (sym k.1) in
      let stops =
        subst
          (λ (u : UssdPort).
            let after = (resume id code (happen (command_timer now) u)).phase in
            (is_ended after ≡ true) ⊎ (after ≡ awaiting))
          same
          (command_times_out id code p.connected p.written p.serial.rx_buffer d.current d.waiters
            d.quiet_until now p.phase k.2) in
      elim stops [
        | inl over ↦ happen-ended (waiter_timer id) p1 p1.phase refl over
        | inr waits ↦ waiter_ends p1 (resume-happen-Next (command_timer now) p k) waits
      ]
    where
      waiter_ends :
          (u : UssdPort)
          → Next id [] u
          → u.phase ≡ awaiting
          → is_ended (resume id code (happen (waiter_timer id) u)).phase ≡ true
      waiter_ends u (cusd, n, ready) e =
          let v : UssdPort = record {
            connected = u.connected;
            written = u.written;
            serial = record {
              rx_buffer = u.serial.rx_buffer;
              dialogue = record u.serial.dialogue { events = [] };
            };
            phase = awaiting;
          } in
          let same : v ≡ u =
            ap
              (λ (es : List Event). record v {
                serial = record v.serial { dialogue = record v.serial.dialogue { events = es } };
              })
              (sym n)
            ∙ ap (λ (ph : Phase). record u { phase = ph }) (sym e) in
          subst
            (λ (t : UssdPort). is_ended (resume id code (happen (waiter_timer id) t)).phase ≡ true)
            same
            (waiter_times_out id code u.connected u.written u.serial.rx_buffer
              u.serial.dialogue.current u.serial.dialogue.waiters u.serial.dialogue.quiet_until
              (subst (λ ph. PhaseOk id ph (record u.serial.dialogue { events = [] })) e ready))

  start-Next :
      (connected : Bool) (serial : Serial)
      → All IsCusd serial.dialogue.waiters
      → serial.dialogue.events ≡ []
      → Next id [] (
          issue
            (codes "AT+CSCS=\"GSM\"")
            (codes "CSCS")
            setting
            (record { connected = connected; written = []; serial = serial; phase = setting }))
  unfolding issue start_command
  start-Next true serial h e = (h, e, inl refl)
  start-Next false serial h e = (h, e, tt)

-- Whatever arrives on the port, whichever timers fire and whenever the port is lost: a session that
-- returns a text returns a line that begins with `+CUSD`, and a session that is not over is over once
-- the timer of its command and then the timer of its waiter fire. The port's waiters at the start are
-- those of other sessions, and no event is left.
pub run_ussd-Ends :
    (id now : ℕ) (code : Str) (hs : List Happening) (connected : Bool) (serial : Serial)
    → All IsCusd serial.dialogue.waiters
    → serial.dialogue.events ≡ []
    → let p = run_ussd id code hs connected serial in
      EndsWell p.phase
      × (is_ended (run_on_port id code (command_timer now ∷ waiter_timer id ∷ []) p).phase ≡ true)
unfolding run_ussd
run_ussd-Ends id now code hs connected serial cusd quiet =
    let p = run_ussd id code hs connected serial in
    let sound : Next id [] p =
      run_on_port-Next id code hs _ (start-Next id code connected serial cusd quiet) in
    (
      PhaseOk-EndsWell id p.phase (record p.serial.dialogue { events = [] }) sound.2,
      timers_end id code now p sound,
    )
