-- ===== src/Serial/Ussd/Ends.antt =====
-- utils/modem.js: what handling a line, a chunk, a timer or a loss of the port leaves of a command that
-- runs and of a waiter that is registered.
pub mod Lines
pub mod Finish
pub mod Expiry
pub mod Outcome
pub mod Timers
use modem_sms_gateway.Prelude.{
  ℕ, zero, suc, ◌≡◌, refl, sym, ap, ◌∙◌, ◌⊎◌, inl, inr, Bool, true, false, List, [], ◌∷◌, ◌++◌,
  Option, none, some, Str, codes, ◌==◌, if◌then◌else◌, is_some, starts_with, All, Bool-cases, trim,
  is_empty,
}
use modem_sms_gateway.Prelude.Actions.{Result, ok, err}
use modem_sms_gateway.Serial.Lines.{
  Command, Waiter, Event, resolved, rejected, timed_out, notified, unsolicited, Dialogue, Serial,
  settle_command, settle_current, take_waiter,
}
use modem_sms_gateway.Serial.Ussd.{has_waiter}

-- A waiter is told a line that begins with `+CUSD`, or nothing.
abbrev pub IsReply : Option Str → Type 0
IsReply none = Unit
IsReply (some line) = starts_with line (codes "+CUSD") ≡ true

abbrev pub IsCusd : Waiter → Type 0
IsCusd w = w.prefix ≡ codes "+CUSD"

abbrev pub IsSound : Event → Type 0
IsSound (resolved lines) = Unit
IsSound (rejected message) = Unit
IsSound (timed_out label) = Unit
IsSound (notified k reply) = IsReply reply
IsSound (unsolicited line) = Unit

-- The command is over.
abbrev pub is_settling : Event → Bool
is_settling (resolved lines) = true
is_settling (rejected message) = true
is_settling (timed_out label) = true
is_settling (notified k reply) = false
is_settling (unsolicited line) = false

-- The waiter `id` is told.
abbrev pub is_notice : ℕ → Event → Bool
is_notice id (resolved lines) = false
is_notice id (rejected message) = false
is_notice id (timed_out label) = false
is_notice id (notified k reply) = k == id
is_notice id (unsolicited line) = false

abbrev pub has : (Event → Bool) → List Event → Bool
has f [] = false
has f (e ∷ es) = if f e then true else has f es

else_map :
    (b x y : Bool)
    → (x ≡ true → y ≡ true)
    → (if b then true else x) ≡ true
    → (if b then true else y) ≡ true
else_map true x y f h = refl
else_map false x y f h = f h

else_true : (b x : Bool) → x ≡ true → (if b then true else x) ≡ true
else_true true x h = refl
else_true false x h = h

has-left : (f : Event → Bool) (xs ys : List Event) → has f xs ≡ true → has f (xs ++ ys) ≡ true
has-left f [] ys h = absurd (cc)
has-left f (x ∷ xs) ys h = else_map (f x) (has f xs) (has f (xs ++ ys)) (has-left f xs ys) h

has-right : (f : Event → Bool) (xs ys : List Event) → has f ys ≡ true → has f (xs ++ ys) ≡ true
has-right f [] ys h = h
has-right f (x ∷ xs) ys h = else_true (f x) (has f (xs ++ ys)) (has-right f xs ys h)

All-append : {A : Type 0} (P : A → Type 0) (xs ys : List A) → All P xs → All P ys → All P (xs ++ ys)
All-append P [] ys h k = k
All-append P (x ∷ xs) ys (p, h) k = (p, All-append P xs ys h k)

abbrev pub Good : Dialogue → Type 0
Good d = All IsCusd d.waiters × All IsSound d.events

-- A command runs, or was settled a moment ago.
abbrev pub Busy : Dialogue → Type 0
Busy d = (is_some d.current ≡ true) ⊎ (has is_settling d.events ≡ true)

-- The waiter is registered, or was told a moment ago.
abbrev pub Waits : ℕ → Dialogue → Type 0
Waits id d = (has_waiter id d.waiters ≡ true) ⊎ (has (is_notice id) d.events ≡ true)

-- What is good, a command that runs and a waiter that waits are not lost.
abbrev pub Keeps : ℕ → Dialogue → Dialogue → Type 0
Keeps id d d' = Good d → Good d' × (Busy d → Busy d') × (Waits id d → Waits id d')

pub Keeps-refl : (id : ℕ) (d : Dialogue) → Keeps id d d
Keeps-refl id d g = (g, (λ b. b), (λ w. w))

pub Keeps-trans : (id : ℕ) (a b c : Dialogue) → Keeps id a b → Keeps id b c → Keeps id a c
Keeps-trans id a b c f h g =
    let (g', b', w') = f g in let (g2, b2, w2) = h g' in (g2, (λ x. b2 (b' x)), (λ x. w2 (w' x)))

-- The events that are added account for a command and a waiter that are gone.
pub Keeps-changed :
    (id : ℕ) (d : Dialogue) (c : Option Command) (ws : List Waiter) (q : ℕ) (es : List Event)
    → (All IsCusd d.waiters → All IsCusd ws × All IsSound es)
    → (is_some d.current ≡ true → (is_some c ≡ true) ⊎ (has is_settling es ≡ true))
    → (has_waiter id d.waiters ≡ true → (has_waiter id ws ≡ true) ⊎ (has (is_notice id) es ≡ true))
    → Keeps id d (record { current = c; waiters = ws; quiet_until = q; events = d.events ++ es })
Keeps-changed id d c ws q es f h k (cusd, sound) =
    let (cusd', sound') = f cusd in
    ((cusd', All-append IsSound d.events es sound sound'), go_busy, go_waits)
  where
    go_busy : Busy d → (is_some c ≡ true) ⊎ (has is_settling (d.events ++ es) ≡ true)
    go_busy (inr e) = inr (has-left is_settling d.events es e)
    go_busy (inl e) = elim (h e) [
      | inl e' ↦ inl e'
      | inr e' ↦ inr (has-right is_settling d.events es e')
    ]

    go_waits : Waits id d → (has_waiter id ws ≡ true) ⊎ (has (is_notice id) (d.events ++ es) ≡ true)
    go_waits (inr e) = inr (has-left (is_notice id) d.events es e)
    go_waits (inl e) = elim (k e) [
      | inl e' ↦ inl e'
      | inr e' ↦ inr (has-right (is_notice id) d.events es e')
    ]
