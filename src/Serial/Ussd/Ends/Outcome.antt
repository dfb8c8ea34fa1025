-- ===== src/Serial/Ussd/Ends/Outcome.antt =====
-- utils/modem.js: what a USSD session returns, and that it comes to an end.
use modem_sms_gateway.Prelude.{
  ℕ, ◌≡◌, refl, ◌⊎◌, inl, Bool, true, false, List, [], ◌∷◌, ◌++◌, none, some, Str, codes, ◌==◌,
  ==_iff, if◌then◌else◌, All,
}
use modem_sms_gateway.Prelude.Actions.{ok, err}
use modem_sms_gateway.Serial.Lines.{
  Waiter, Event, resolved, rejected, timed_out, notified, unsolicited, Dialogue, Serial,
  start_command, wait_for_urc,
}
use modem_sms_gateway.Serial.Ussd.{
  Phase, setting, dialing, awaiting, ended, UssdPort, issue, has_waiter, resume_at, resume_all,
  dial,
}
use modem_sms_gateway.Serial.Ussd.Ends.{
  IsReply, IsCusd, IsSound, is_notice, has, Good, Busy, Waits, Keeps, All-append,
}

abbrev pub EndsWell : Phase → Type 0
EndsWell setting = Unit
EndsWell (dialing told) = Unit
EndsWell awaiting = Unit
EndsWell (ended (ok reply)) = IsReply reply
EndsWell (ended (err e)) = Unit

abbrev pub is_ended : Phase → Bool
is_ended setting = false
is_ended (dialing told) = false
is_ended awaiting = false
is_ended (ended r) = true

-- What a session waits for is on its way.
abbrev pub PhaseOk : ℕ → Phase → Dialogue → Type 0
PhaseOk id setting d = Busy d
PhaseOk id (dialing none) d = Busy d × Waits id d
PhaseOk id (dialing (some reply)) d = Busy d × IsReply reply
PhaseOk id awaiting d = Waits id d
PhaseOk id (ended (ok reply)) d = IsReply reply
PhaseOk id (ended (err e)) d = Unit

pub PhaseOk-EndsWell : (id : ℕ) (ph : Phase) (d : Dialogue) → PhaseOk id ph d → EndsWell ph
PhaseOk-EndsWell id setting d h = tt
PhaseOk-EndsWell id (dialing told) d h = tt
PhaseOk-EndsWell id awaiting d h = tt
PhaseOk-EndsWell id (ended (ok reply)) d h = h
PhaseOk-EndsWell id (ended (err e)) d h = tt

pub PhaseOk-Keeps :
    (id : ℕ) (ph : Phase) (d d' : Dialogue)
    → Keeps id d d'
    → Good d
    → PhaseOk id ph d
    → PhaseOk id ph d'
PhaseOk-Keeps id setting d d' k g h = (k g).1 h
PhaseOk-Keeps id (dialing none) d d' k g (b, w) = ((k g).1 b, (k g).2 w)
PhaseOk-Keeps id (dialing (some reply)) d d' k g (b, r) = ((k g).1 b, r)
PhaseOk-Keeps id awaiting d d' k g h = (k g).2 h
PhaseOk-Keeps id (ended (ok reply)) d d' k g h = h
PhaseOk-Keeps id (ended (err e)) d d' k g h = tt

-- With the events `es` still to be handled.
abbrev pub Next : ℕ → List Event → UssdPort → Type 0
Next id es p =
    All IsCusd p.serial.dialogue.waiters
    × (p.serial.dialogue.events ≡ [])
    × PhaseOk id p.phase (record p.serial.dialogue { events = es })

has_waiter-added :
    (id : ℕ) (prefix : Str) (ws : List Waiter)
    → has_waiter id (ws ++ record { id = id; prefix = prefix } ∷ []) ≡ true
unfolding has_waiter
has_waiter-added id prefix [] = rw ((==_iff id id).1 refl) refl
has_waiter-added id prefix (w ∷ ws) = go (w.id == id) (has_waiter-added id prefix ws)
  where
    go : (b : Bool) {x : Bool} → x ≡ true → (if b then true else x) ≡ true
    go true h = refl
    go false h = h

module _ (id : ℕ) (code : Str) where
  dial-Next :
      (es : List Event) (c : Bool) (w : List Str) (s : Serial) (ph : Phase)
      → All IsCusd s.dialogue.waiters
      → s.dialogue.events ≡ []
      → Next id es (dial id code (record { connected = c; written = w; serial = s; phase = ph }))
  unfolding dial issue wait_for_urc start_command
  dial-Next es true w s ph h e = (
    All-append IsCusd s.dialogue.waiters _ h (refl, tt),
    e,
    (inl refl, inl (has_waiter-added id (codes "+CUSD") s.dialogue.waiters)),
  )
  dial-Next es false w s ph h e = (All-append IsCusd s.dialogue.waiters _ h (refl, tt), e, tt)

  resume_at-Next :
      (e : Event) (es : List Event) (c : Bool) (w : List Str) (s : Serial) (ph : Phase)
      → IsSound e
      → Next id (e ∷ es) (record { connected = c; written = w; serial = s; phase = ph })
      → Next id es
          (resume_at id code e ph (record { connected = c; written = w; serial = s; phase = ph }))
  unfolding resume_at
  resume_at-Next (resolved lines) es c w s setting i (h, n, k) = dial-Next es c w s setting h n
  resume_at-Next (rejected m) es c w s setting i (h, n, k) = (h, n, tt)
  resume_at-Next (timed_out l) es c w s setting i (h, n, k) = (h, n, tt)
  resume_at-Next (notified j r) es c w s setting i (h, n, k) = (h, n, k)
  resume_at-Next (unsolicited l) es c w s setting i (h, n, k) = (h, n, k)
  resume_at-Next (resolved lines) es c w s (dialing none) i (h, n, k) = (h, n, k.1)
  resume_at-Next (resolved lines) es c w s (dialing (some r)) i (h, n, k) = (h, n, k.1)
  resume_at-Next (rejected m) es c w s (dialing told) i (h, n, k) = (h, n, tt)
  resume_at-Next (timed_out l) es c w s (dialing told) i (h, n, k) = (h, n, tt)
  resume_at-Next (notified j r) es c w s (dialing none) i (h, n, (b, k)) = go (j == id) k
    where
      go :
          (t : Bool)
          → (has_waiter id s.dialogue.waiters ≡ true)
            ⊎ ((if t then true else has (is_notice id) es) ≡ true)
          → Next id es (
              if t
              then record { connected = c; written = w; serial = s; phase = dialing (some r) }
              else record { connected = c; written = w; serial = s; phase = dialing none })
      go true k' = (h, n, (b, i))
      go false k' = (h, n, (b, k'))
  resume_at-Next (notified j r) es c w s (dialing (some r')) i (h, n, (b, k)) = go (j == id)
    where
      go :
          (t : Bool)
          → Next id es (
              if t
              then record { connected = c; written = w; serial = s; phase = dialing (some r) }
              else record { connected = c; written = w; serial = s; phase = dialing (some r') })
      go true = (h, n, (b, i))
      go false = (h, n, (b, k))
  resume_at-Next (unsolicited l) es c w s (dialing none) i (h, n, k) = (h, n, k)
  resume_at-Next (unsolicited l) es c w s (dialing (some r)) i (h, n, k) = (h, n, k)
  resume_at-Next (resolved lines) es c w s awaiting i (h, n, k) = (h, n, k)
  resume_at-Next (rejected m) es c w s awaiting i (h, n, k) = (h, n, k)
  resume_at-Next (timed_out l) es c w s awaiting i (h, n, k) = (h, n, k)
  resume_at-Next (notified j r) es c w s awaiting i (h, n, k) = go (j == id) k
    where
      go :
          (t : Bool)
          → (has_waiter id s.dialogue.waiters ≡ true)
            ⊎ ((if t then true else has (is_notice id) es) ≡ true)
          → Next id es (
              if t
              then record { connected = c; written = w; serial = s; phase = ended (ok r) }
              else record { connected = c; written = w; serial = s; phase = awaiting })
      go true k' = (h, n, i)
      go false k' = (h, n, k')
  resume_at-Next (unsolicited l) es c w s awaiting i (h, n, k) = (h, n, k)
  resume_at-Next e es c w s (ended (ok r)) i (h, n, k) = (h, n, k)
  resume_at-Next e es c w s (ended (err x)) i (h, n, k) = (h, n, k)

  pub resume_all-Next :
      (es : List Event) (p : UssdPort)
      → All IsSound es
      → Next id es p
      → Next id [] (resume_all id code es p)
  unfolding resume_all
  resume_all-Next [] p i k = k
  resume_all-Next (e ∷ es) p (i, is) k =
      resume_all-Next es (resume_at id code e p.phase p) is
        (resume_at-Next e es p.connected p.written p.serial p.phase i k)
