-- ===== src/Serial/Ussd/Ends/Expiry.antt =====
-- utils/modem.js: the timers of a USSD session.
use modem_sms_gateway.Prelude.{
  ℕ, ◌≡◌, refl, ◌⊎◌, inl, inr, Bool, true, false, List, [], Option, none, some, Str, ==_iff,
}
use modem_sms_gateway.Serial.Lines.{Command, Waiter, Dialogue, command_timeout, waiter_timeout}
use modem_sms_gateway.Serial.Ussd.{
  Phase, setting, dialing, awaiting, ended, UssdPort, Happening, arrived, write_failed,
  command_timer, waiter_timer, lost, reopened, shut_down, happen, command_expires, waiter_expires,
  has_waiter, resume_at, resume_all, resume,
}
use modem_sms_gateway.Serial.Ussd.Ends.Outcome.{is_ended, PhaseOk}

pub happen-phase : (h : Happening) (p : UssdPort) → (happen h p).phase ≡ p.phase
unfolding happen
happen-phase (arrived chunk) p = refl
happen-phase (write_failed m) p = refl
happen-phase (command_timer now) p = refl
happen-phase (waiter_timer k) p = refl
happen-phase lost p = refl
happen-phase shut_down p = refl
happen-phase reopened p = refl

module _ (id : ℕ) (code : Str) where
  -- When the command's timer fires, the session is over or waits for its waiter.
  pub command_times_out :
      (c : Bool) (w : List Str) (rx : Str) (cur : Option Command) (ws : List Waiter) (q now : ℕ)
      (ph : Phase)
      → let d : Dialogue = record { current = cur; waiters = ws; quiet_until = q; events = [] } in
        let p : UssdPort = record {
          connected = c;
          written = w;
          serial = record { rx_buffer = rx; dialogue = d };
          phase = ph;
        } in
        PhaseOk id ph d
        → let after = (resume id code (happen (command_timer now) p)).phase in
          (is_ended after ≡ true) ⊎ (after ≡ awaiting)
  unfolding resume resume_all resume_at happen command_expires command_timeout
  command_times_out c w rx (some x) ws q now setting k = inl refl
  command_times_out c w rx none ws q now setting k = absurd (elim k [ inl h ↦ cc | inr h ↦ cc ])
  command_times_out c w rx (some x) ws q now (dialing told) k = inl refl
  command_times_out c w rx none ws q now (dialing none) (k, l) =
      absurd (elim k [ inl h ↦ cc | inr h ↦ cc ])
  command_times_out c w rx none ws q now (dialing (some r)) (k, l) =
      absurd (elim k [ inl h ↦ cc | inr h ↦ cc ])
  command_times_out c w rx (some x) ws q now awaiting k = inr refl
  command_times_out c w rx none ws q now awaiting k = inr refl
  command_times_out c w rx (some x) ws q now (ended r) k = inl refl
  command_times_out c w rx none ws q now (ended r) k = inl refl

  -- When the waiter's timer fires, a session that waits for it is over.
  pub waiter_times_out :
      (c : Bool) (w : List Str) (rx : Str) (cur : Option Command) (ws : List Waiter) (q : ℕ)
      → (has_waiter id ws ≡ true) ⊎ (false ≡ true)
      → is_ended
          (resume id code (
            happen (waiter_timer id) (record {
              connected = c;
              written = w;
              serial = record {
                rx_buffer = rx;
                dialogue = record { current = cur; waiters = ws; quiet_until = q; events = [] };
              };
              phase = awaiting;
            }))).phase
        ≡ true
  unfolding resume resume_all resume_at happen waiter_expires waiter_timeout
  waiter_times_out c w rx cur ws q (inr h) = absurd (cc)
  waiter_times_out c w rx cur ws q (inl h) = rw (h, (==_iff id id).1 refl) refl
