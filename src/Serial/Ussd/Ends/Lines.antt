-- ===== src/Serial/Ussd/Ends/Lines.antt =====
-- utils/modem.js: a line and a chunk lose no command and no waiter.
use modem_sms_gateway.Prelude.{
  ℕ, zero, suc, ◌≡◌, refl, ◌⊎◌, inl, inr, Bool, true, false, List, [], ◌∷◌, ◌++◌, Option, none,
  some, Str, codes, ◌==◌, if◌then◌else◌, starts_with, All, Bool-cases, trim, trim_start, is_empty,
  ◌&&◌, length,
}
use mathlib.Core.Path.{subst}
use modem_sms_gateway.Serial.Utf8.{idle, decode}
use modem_sms_gateway.Serial.Lines.{
  Command, Waiter, resolved, rejected, notified, unsolicited, Dialogue, Serial, settle_command,
  settle_current, take_waiter, is_terminal_line, is_error_line, error_text, command_line,
  handle_line, next_line, take_line, feed, awaits_prompt, check_prompt, handle_text, handle_data,
}
use modem_sms_gateway.Serial.Ussd.{has_waiter}
use modem_sms_gateway.Serial.Ussd.Ends.{
  IsCusd, Busy, Waits, Keeps, Keeps-refl, Keeps-trans, Keeps-changed,
}

-- What taking a waiter out of the list leaves.
abbrev Taken : ℕ → Str → List Waiter → Option (Waiter × List Waiter) → Type 0
Taken id line ws none = Unit
Taken id line ws (some (w, ws')) =
    (starts_with line (codes "+CUSD") ≡ true)
    × All IsCusd ws'
    × (has_waiter id ws ≡ true → (has_waiter id ws' ≡ true) ⊎ ((w.id == id) ≡ true))

took_first :
    (id : ℕ) (line : Str) (w : Waiter) (ws : List Waiter)
    → IsCusd w
    → All IsCusd ws
    → starts_with line w.prefix ≡ true
    → Taken id line (w ∷ ws) (some (w, ws))
unfolding has_waiter
took_first id line w ws c cs h = (
  subst (λ p. starts_with line p ≡ true) c h,
  cs,
  λ (k : has_waiter id (w ∷ ws) ≡ true). go (w.id == id) (has_waiter id ws) k,
)
  where
    go : (b x : Bool) → (if b then true else x) ≡ true → (x ≡ true) ⊎ (b ≡ true)
    go true x e = inr refl
    go false x e = inl e

took_later :
    (id : ℕ) (line : Str) (w : Waiter) (ws : List Waiter) (o : Option (Waiter × List Waiter))
    → IsCusd w
    → Taken id line ws o
    → Taken id line (w ∷ ws) (elim o [ none ↦ none | some (v, vs) ↦ some (v, w ∷ vs) ])
unfolding has_waiter
took_later id line w ws none c t = tt
took_later id line w ws (some (v, vs)) c (starts, cs, keeps) = (
  starts,
  (c, cs),
  λ (k : has_waiter id (w ∷ ws) ≡ true).
      go (w.id == id) (has_waiter id ws) (has_waiter id vs) keeps k,
)
  where
    go :
        (b x y : Bool)
        → (x ≡ true → (y ≡ true) ⊎ ((v.id == id) ≡ true))
        → (if b then true else x) ≡ true
        → ((if b then true else y) ≡ true) ⊎ ((v.id == id) ≡ true)
    go true x y f e = inl refl
    go false x y f e = f e

take_waiter-Taken :
    (id : ℕ) (line : Str) (ws : List Waiter)
    → All IsCusd ws
    → Taken id line ws (take_waiter line ws)
unfolding take_waiter
take_waiter-Taken id line [] h = tt
take_waiter-Taken id line (w ∷ ws) (c, cs) = elim (Bool-cases (starts_with line w.prefix)) [
  | inl y ↦ rw y (took_first id line w ws c cs y)
  | inr n ↦ rw n (took_later id line w ws (take_waiter line ws) c (take_waiter-Taken id line ws cs))
]

settle_command-Keeps :
    (id : ℕ) (o : Option Command) (m : Option Str) (d : Dialogue)
    → Keeps id d (settle_command o m d)
unfolding settle_command
settle_command-Keeps id none m d = Keeps-refl id d
settle_command-Keeps id (some c) none d =
    Keeps-changed id d none d.waiters d.quiet_until (resolved c.lines ∷ []) (λ h. (h, (tt, tt)))
      (λ h. inr refl) inl
settle_command-Keeps id (some c) (some e) d =
    Keeps-changed id d none d.waiters d.quiet_until (rejected e ∷ []) (λ h. (h, (tt, tt)))
      (λ h. inr refl) inl

-- The current command is replaced by another.
swap-Keeps : (id : ℕ) (c : Command) (d : Dialogue) → Keeps id d (record d { current = some c })
swap-Keeps id c d (cusd, sound) =
    ((cusd, sound), (λ (b : Busy d). inl refl), (λ (w : Waits id d). w))

ended_line-Keeps :
    (id : ℕ) (line : Str) (c : Command) (d : Dialogue) (terminal bad : Bool)
    → Keeps id d (
        if terminal
        then (if bad
            then settle_command (some c) (some (error_text line c.label)) d
            else settle_command (some c) none d)
        else d)
ended_line-Keeps id line c d false bad = Keeps-refl id d
ended_line-Keeps id line c d true true =
    settle_command-Keeps id (some c) (some (error_text line c.label)) d
ended_line-Keeps id line c d true false = settle_command-Keeps id (some c) none d

command_line-Keeps :
    (id : ℕ) (line : Str) (o : Option Command) (d : Dialogue) → Keeps id d (command_line line o d)
unfolding command_line
command_line-Keeps id line none d =
    Keeps-changed id d d.current d.waiters d.quiet_until (unsolicited line ∷ [])
      (λ h. (h, (tt, tt))) inl inl
command_line-Keeps id line (some c) d =
    let c' : Command = record c { lines = c.lines ++ line ∷ [] } in
    Keeps-trans id d (record d { current = some c' }) (command_line line (some c) d)
      (swap-Keeps id c' d)
      (ended_line-Keeps id line c' (record d { current = some c' }) (is_terminal_line line)
        (is_error_line line))

handle_line-Keeps : (id : ℕ) (line : Str) (d : Dialogue) → Keeps id d (handle_line line d)
unfolding handle_line
handle_line-Keeps id line d g =
    go (take_waiter line d.waiters) (take_waiter-Taken id line d.waiters g.0) g
  where
    go :
        (o : Option (Waiter × List Waiter))
        → Taken id line d.waiters o
        → Keeps id d (elim o [
          | some (w, ws) ↦ record d {
            waiters = ws;
            events = d.events ++ notified w.id (some line) ∷ [];
          }
          | none ↦ command_line line d.current d
        ])
    go none t = command_line-Keeps id line d.current d
    go (some (w, ws)) (starts, cs, keeps) =
        Keeps-changed id d d.current ws d.quiet_until (notified w.id (some line) ∷ [])
          (λ h. (cs, (starts, tt))) inl
          (λ h. elim (keeps h) [ inl k ↦ inl k | inr k ↦ inr (rw k refl) ])

take_line-Keeps : (id : ℕ) (line : Str) (d : Dialogue) → Keeps id d (take_line line d)
unfolding take_line
take_line-Keeps id line d = go (is_empty line)
  where
    go : (b : Bool) → Keeps id d (if b then d else handle_line line d)
    go true = Keeps-refl id d
    go false = handle_line-Keeps id line d

feed-Keeps : (id n : ℕ) (buffer : Str) (d : Dialogue) → Keeps id d (feed n buffer d).0
unfolding feed
feed-Keeps id zero buffer d = Keeps-refl id d
feed-Keeps id (suc n) buffer d = go (feed-Keeps id n) (next_line buffer)
  where
    go :
        ((rest : Str) (e : Dialogue) → Keeps id e (feed n rest e).0)
        → (o : Option (Str × Str))
        → Keeps id d
            (elim o as (λ (o' : Option (Str × Str)). Dialogue × Str) [
              | none ↦ (d, buffer)
              | some (line, rest) ↦ feed n rest (take_line (trim line) d)
            ]).0
    go f none = Keeps-refl id d
    go f (some (line, rest)) =
        Keeps-trans id d (take_line (trim line) d) (feed n rest (take_line (trim line) d)).0
          (take_line-Keeps id (trim line) d) (f rest (take_line (trim line) d))

check_prompt-Keeps :
    (id : ℕ) (d : Dialogue) (rest : Str) → Keeps id d (check_prompt (d, rest)).dialogue
unfolding check_prompt settle_current
check_prompt-Keeps id d rest =
    go (awaits_prompt d.current && starts_with (trim_start rest) (codes ">"))
  where
    go :
        (b : Bool)
        → Keeps id d
            (if◌then◌else◌ {A = Serial} b
              (record { rx_buffer = []; dialogue = settle_current none d })
              (record { rx_buffer = rest; dialogue = d })).dialogue
    go true = settle_command-Keeps id d.current none d
    go false = Keeps-refl id d

handle_text-Keeps :
    (id : ℕ) (chunk : Str) (s : Serial) → Keeps id s.dialogue (handle_text chunk s).dialogue
unfolding handle_text
handle_text-Keeps id chunk s =
    let buffer = s.rx_buffer ++ chunk in
    let r = feed (length buffer) buffer s.dialogue in
    Keeps-trans id s.dialogue r.0 (check_prompt r).dialogue
      (feed-Keeps id (length buffer) buffer s.dialogue) (check_prompt-Keeps id r.0 r.1)

pub handle_data-Keeps :
    (id : ℕ) (chunk : List ℕ) (s : Serial) → Keeps id s.dialogue (handle_data chunk s).dialogue
unfolding handle_data
handle_data-Keeps id chunk s = handle_text-Keeps id (decode idle chunk) s

pub settle_current-Keeps :
    (id : ℕ) (m : Option Str) (d : Dialogue) → Keeps id d (settle_current m d)
unfolding settle_current
settle_current-Keeps id m d = settle_command-Keeps id d.current m d
