-- ===== src/Serial/Ussd/Ends/Timers.antt =====
-- utils/modem.js: a timer and a loss of the port lose no command and no waiter.
use modem_sms_gateway.Prelude.{
  ℕ, ◌+◌, ◌≡◌, refl, ◌∙◌, sym, ◌⊎◌, inl, inr, Bool, true, false, List, [], ◌∷◌, Option, none, some,
  Str, ◌==◌, ==_iff, if◌then◌else◌, All,
}
use modem_sms_gateway.Serial.Lines.{
  Command, Waiter, timed_out, notified, Dialogue, settle_current, notify_closed,
  fail_current_command, command_timeout, remove_waiter, waiter_timeout,
}
use modem_sms_gateway.Serial.Ussd.{has_waiter, command_expires, waiter_expires}
use modem_sms_gateway.Serial.Ussd.Ends.{
  IsCusd, IsSound, is_notice, has, Keeps, Keeps-refl, Keeps-trans, Keeps-changed,
}
use modem_sms_gateway.Serial.Ussd.Ends.Lines.{settle_current-Keeps}

pub command_expires-Keeps :
    (id now : ℕ) (o : Option Command) (d : Dialogue) → Keeps id d (command_expires now o d)
unfolding command_expires command_timeout
command_expires-Keeps id now none d = Keeps-refl id d
command_expires-Keeps id now (some c) d =
    Keeps-changed id d none d.waiters (now + 2000) (timed_out c.label ∷ []) (λ h. (h, (tt, tt)))
      (λ h. inr refl) inl

remove_waiter-IsCusd : (k : ℕ) (ws : List Waiter) → All IsCusd ws → All IsCusd (remove_waiter k ws)
unfolding remove_waiter
remove_waiter-IsCusd k [] h = tt
remove_waiter-IsCusd k (w ∷ ws) (c, cs) = go (w.id == k) (remove_waiter-IsCusd k ws cs)
  where
    go :
        (b : Bool)
        → All IsCusd (remove_waiter k ws)
        → All IsCusd (if b then remove_waiter k ws else w ∷ remove_waiter k ws)
    go true h = h
    go false h = (c, h)

==_same : (a k id : ℕ) → (a == k) ≡ true → (a == id) ≡ true → (k == id) ≡ true
==_same a k id h h' = (==_iff k id).1 (sym ((==_iff a k).0 h) ∙ (==_iff a id).0 h')

-- A waiter that is removed is the one with the given number.
has_waiter-remove_waiter :
    (id k : ℕ) (ws : List Waiter)
    → has_waiter id ws ≡ true
    → (has_waiter id (remove_waiter k ws) ≡ true) ⊎ ((k == id) ≡ true)
unfolding has_waiter remove_waiter
has_waiter-remove_waiter id k [] h = absurd (cc)
has_waiter-remove_waiter id k (w ∷ ws) h =
    go (w.id == id) (w.id == k) (==_same w.id k id) (has_waiter-remove_waiter id k ws) refl refl h
  where
    go :
        (b c : Bool)
        → ((w.id == k) ≡ true → (w.id == id) ≡ true → (k == id) ≡ true)
        → (has_waiter id ws ≡ true
            → (has_waiter id (remove_waiter k ws) ≡ true) ⊎ ((k == id) ≡ true))
        → (w.id == id) ≡ b
        → (w.id == k) ≡ c
        → (if b then true else has_waiter id ws) ≡ true
        → (has_waiter id (if c then remove_waiter k ws else w ∷ remove_waiter k ws) ≡ true)
          ⊎ ((k == id) ≡ true)
    go true true same f e e' k' = inr (same e' e)
    go true false same f e e' k' = inl (rw e refl)
    go false true same f e e' k' = f k'
    go false false same f e e' k' = elim (f k') [ inl x ↦ inl (rw (e, x) refl) | inr x ↦ inr x ]

pub waiter_expires-Keeps : (id k : ℕ) (d : Dialogue) → Keeps id d (waiter_expires k d)
unfolding waiter_expires waiter_timeout
waiter_expires-Keeps id k d = go (has_waiter k d.waiters)
  where
    go : (b : Bool) → Keeps id d (if b then waiter_timeout k d else d)
    go false = Keeps-refl id d
    go true =
        Keeps-changed id d d.current (remove_waiter k d.waiters) d.quiet_until
          (notified k none ∷ []) (λ h. (remove_waiter-IsCusd k d.waiters h, (tt, tt))) inl
          (λ h. elim (has_waiter-remove_waiter id k d.waiters h) [
            | inl x ↦ inl x
            | inr x ↦ inr (rw x refl)
          ])

notify_closed-IsSound : (ws : List Waiter) → All IsSound (notify_closed ws)
unfolding notify_closed
notify_closed-IsSound [] = tt
notify_closed-IsSound (w ∷ ws) = (tt, notify_closed-IsSound ws)

has-notify_closed :
    (id : ℕ) (ws : List Waiter)
    → has_waiter id ws ≡ true
    → has (is_notice id) (notify_closed ws) ≡ true
unfolding has_waiter notify_closed
has-notify_closed id [] h = absurd (cc)
has-notify_closed id (w ∷ ws) h = go (w.id == id) (has-notify_closed id ws) h
  where
    go :
        (b : Bool)
        → (has_waiter id ws ≡ true → has (is_notice id) (notify_closed ws) ≡ true)
        → (if b then true else has_waiter id ws) ≡ true
        → (if b then true else has (is_notice id) (notify_closed ws)) ≡ true
    go true f k = refl
    go false f k = f k

pub fail_current_command-Keeps :
    (id : ℕ) (m : Str) (d : Dialogue) → Keeps id d (fail_current_command m d)
unfolding fail_current_command
fail_current_command-Keeps id m d =
    let e = settle_current (some m) d in
    Keeps-trans id d e (fail_current_command m d) (settle_current-Keeps id (some m) d) (
      Keeps-changed id e e.current [] e.quiet_until (notify_closed e.waiters)
        (λ h. (tt, notify_closed-IsSound e.waiters)) inl
        (λ h. inr (has-notify_closed id e.waiters h)))
