-- ===== src/Serial/Lines/Quiet.antt =====
-- utils/modem.js: `transact` waits until the reply to a command that timed out cannot come any more.
use modem_sms_gateway.Prelude.{
  ℕ, ◌+◌, ◌≤◌, ◌<◌, ◌≡◌, refl, ap, ◌∙◌, Bool, true, List, [], ◌∷◌, ◌++◌, some, arith, Str, All, ltb,
  if◌then◌else◌,
}
use modem_sms_gateway.Serial.Lines.{
  timed_out, Dialogue, Serial, handle_line, start_command, command_timeout,
}
use modem_sms_gateway.Serial.Lines.Response.{
  handle_lines, IsUnwaited, all_unsolicited, handle_lines-command_timeout,
}

-- The end of the sleep of `transact` that is called at the time `now`.
unfoldable pub quiet_end : ℕ → Dialogue → ℕ
quiet_end now d = if ltb now d.quiet_until then d.quiet_until else now

-- The lines that arrive before a time are handled; each line comes with the time of its arrival.
unfoldable pub wait_until : ℕ → List (ℕ × Str) → Dialogue → Dialogue × List (ℕ × Str)
unfolding handle_line
wait_until end [] d = (d, [])
wait_until end ((time, line) ∷ ls) d =
    let rest = wait_until end ls (handle_line line d) in
    if ltb time end then rest else (d, (time, line) ∷ ls)

-- `transact` up to the write, called at the time `now`, and the lines that arrive later.
unfoldable pub timed_transact :
    Bool → Str → Bool → ℕ → List (ℕ × Str) → Serial → Serial × List (ℕ × Str)
unfolding quiet_end wait_until start_command
timed_transact connected label expect_prompt now ls s =
    let r = wait_until (quiet_end now s.dialogue) ls s.dialogue in
    (start_command connected label expect_prompt (record s { dialogue = r.0 }), r.1)

abbrev pub texts : List (ℕ × Str) → List Str
texts [] = []
texts ((time, line) ∷ ls) = line ∷ texts ls

-- A line that arrives before a time, and that no waiter takes.
abbrev pub IsLate : ℕ → Dialogue → ℕ × Str → Type 0
IsLate end d l = (l.0 < end) × IsUnwaited d.waiters l.1

IsUnwaited-late :
    (end : ℕ) (d : Dialogue) (ls : List (ℕ × Str))
    → All (IsLate end d) ls
    → All (IsUnwaited d.waiters) (texts ls)
IsUnwaited-late end d [] h = tt
IsUnwaited-late end d ((time, line) ∷ ls) ((early, free), h) = (free, IsUnwaited-late end d ls h)

wait_until_late :
    (end sooner : ℕ) (d e : Dialogue) (ls : List (ℕ × Str))
    → sooner ≤ end
    → All (IsLate sooner d) ls
    → wait_until end ls e ≡ (handle_lines (texts ls) e, [])
unfolding wait_until
wait_until_late end sooner d e [] le h = refl
wait_until_late end sooner d e ((time, line) ∷ ls) le ((early, free), h) =
    let before : ltb time end ≡ true = ground (arith, le, early) in
    rw before (wait_until_late end sooner d (handle_line line e) ls le h)

quiet_end-after :
    (now t : ℕ) (label : Str) (d : Dialogue) → t + 2000 ≤ quiet_end now (command_timeout t label d)
unfolding quiet_end command_timeout
quiet_end-after now t label d = ground arith

-- A command that timed out at the time `t`, and the next one, at whatever time it is called: it starts
-- two seconds after `t` at the earliest, and the lines that arrive before, which no waiter takes, are
-- logged as unsolicited. They neither settle it nor become a part of its answer.
pub timed_transact_lem :
    (t now : ℕ) (label next rx : Str) (prompt : Bool) (late : List (ℕ × Str)) (d : Dialogue)
    → All (IsLate (t + 2000) d) late
    → let timed = command_timeout t label d in
      let r =
        timed_transact true next prompt now late (record { rx_buffer = rx; dialogue = timed }) in
      (t + 2000 ≤ quiet_end now timed)
      × (r.1 ≡ [])
      × (r.0.dialogue.current ≡ some (record { label = next; lines = []; expect_prompt = prompt }))
      × (r.0.dialogue.waiters ≡ d.waiters)
      × (r.0.dialogue.events ≡ d.events ++ timed_out label ∷ all_unsolicited (texts late))
unfolding timed_transact
timed_transact_lem t now label next rx prompt late d h =
    let timed = command_timeout t label d in
    let after = quiet_end-after now t label d in
    let e = wait_until_late (quiet_end now timed) (t + 2000) d timed late after h in
    let (idle, same, events) =
      handle_lines-command_timeout (texts late) t label d (IsUnwaited-late (t + 2000) d late h) in
    (
      after,
      ap (λ x. x.1) e,
      unfold start_command in refl,
      (unfold start_command in ap (λ x. x.0.waiters) e ∙ same),
      (unfold start_command in ap (λ x. x.0.events) e ∙ events),
    )
