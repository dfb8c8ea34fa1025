-- ===== src/Serial/Lines/Response.antt =====
-- utils/modem.js: `handleLine` on the lines of an answer.
use modem_sms_gateway.Prelude.{
  ℕ, ◌≡◌, refl, sym, ap, ◌∙◌, inl, inr, true, false, List, [], ◌∷◌, ◌++◌, append_assoc, append-nil,
  none, some, Str, if◌then◌else◌, Bool-cases, All,
}
use modem_sms_gateway.Serial.Lines.{
  is_terminal_line, is_error_line, Command, Waiter, Event, resolved, rejected, timed_out,
  unsolicited, Dialogue, settle_command, take_waiter, error_text, command_line, handle_line,
  command_timeout,
}

-- The lines handled one after the other.
abbrev pub handle_lines : List Str → Dialogue → Dialogue
handle_lines [] d = d
handle_lines (line ∷ ls) d = handle_lines ls (handle_line line d)

-- A line that no waiter takes.
abbrev pub IsUnwaited : List Waiter → Str → Type 0
IsUnwaited ws line = take_waiter line ws ≡ none

-- A line in the middle of an answer.
abbrev pub IsMiddle : List Waiter → Str → Type 0
IsMiddle ws line = IsUnwaited ws line × (is_terminal_line line ≡ false)

-- What a command that has the given lines is settled with by a terminal line.
abbrev pub answer : Command → List Str → Str → Event
answer cmd lines last =
    if is_error_line last
    then rejected (error_text last cmd.label)
    else resolved (cmd.lines ++ (lines ++ last ∷ []))

handle_line-unwaited :
    (line : Str) (d : Dialogue)
    → IsUnwaited d.waiters line
    → handle_line line d ≡ command_line line d.current d
unfolding handle_line
handle_line-unwaited line d e = rw (handle_line, e) refl

handle_line-middle :
    (line : Str) (cmd : Command) (d : Dialogue)
    → IsMiddle d.waiters line
    → d.current ≡ some cmd
    → handle_line line d
      ≡ record d { current = some (record cmd { lines = cmd.lines ++ line ∷ [] }) }
unfolding command_line
handle_line-middle line cmd d (free, middle) waiting =
    handle_line-unwaited line d free ∙ rw (waiting, middle) refl

handle_line-last :
    (line : Str) (cmd : Command) (d : Dialogue)
    → IsUnwaited d.waiters line
    → is_terminal_line line ≡ true
    → d.current ≡ some cmd
    → handle_line line d ≡ record d { current = none; events = d.events ++ answer cmd [] line ∷ [] }
unfolding command_line settle_command
handle_line-last line cmd d free last waiting = elim (Bool-cases (is_error_line line)) [
  | inl bad ↦ handle_line-unwaited line d free ∙ rw (waiting, bad, last) refl
  | inr good ↦ handle_line-unwaited line d free ∙ rw (waiting, good, last) refl
]

-- A waiting command gets its answer from the lines up to the first terminal one: it is rejected with
-- that line if it is an error, and else resolved with all the lines, and then nothing waits.
pub handle_lines-answer :
    (ls : List Str) (last : Str) (cmd : Command) (d : Dialogue)
    → All (IsMiddle d.waiters) ls
    → IsUnwaited d.waiters last
    → is_terminal_line last ≡ true
    → d.current ≡ some cmd
    → handle_lines (ls ++ last ∷ []) d
      ≡ record d { current = none; events = d.events ++ answer cmd ls last ∷ [] }
handle_lines-answer [] last cmd d middle free ends waiting =
    handle_line-last last cmd d free ends waiting
handle_lines-answer (l ∷ ls) last cmd d middle free ends waiting =
    let cmd' : Command = record cmd { lines = cmd.lines ++ l ∷ [] } in
    let d' : Dialogue = record d { current = some cmd' } in
    let more : cmd.lines ++ (l ∷ (ls ++ last ∷ [])) ≡ (cmd.lines ++ l ∷ []) ++ (ls ++ last ∷ []) =
      sym (append_assoc cmd.lines (l ∷ []) (ls ++ last ∷ [])) in
    ap (handle_lines (ls ++ last ∷ [])) (handle_line-middle l cmd d middle.0 waiting)
    ∙ handle_lines-answer ls last cmd' d' middle.1 free ends refl
    ∙ rw more refl

abbrev pub all_unsolicited : List Str → List Event
all_unsolicited [] = []
all_unsolicited (l ∷ ls) = unsolicited l ∷ all_unsolicited ls

handle_lines-idle :
    (ls : List Str) (d : Dialogue)
    → d.current ≡ none
    → All (IsUnwaited d.waiters) ls
    → handle_lines ls d ≡ record d { events = d.events ++ all_unsolicited ls }
handle_lines-idle [] d idle free = rw (append-nil d.events) refl
handle_lines-idle (l ∷ ls) d idle free =
    let d' : Dialogue = record d { events = d.events ++ unsolicited l ∷ [] } in
    let step : handle_line l d ≡ d' =
      handle_line-unwaited l d free.0 ∙ unfold command_line in rw idle refl in
    ap (handle_lines ls) step
    ∙ handle_lines-idle ls d' idle free.1
    ∙ rw (append_assoc d.events (unsolicited l ∷ []) (all_unsolicited ls)) refl

-- After a command has timed out, a reply that still comes settles nothing: each of its lines is
-- logged as unsolicited, and no other promise is resolved or rejected.
pub handle_lines-command_timeout :
    (ls : List Str) (now : ℕ) (label : Str) (d : Dialogue)
    → All (IsUnwaited d.waiters) ls
    → let d' = handle_lines ls (command_timeout now label d) in
      (d'.current ≡ none)
      × (d'.waiters ≡ d.waiters)
      × (d'.events ≡ d.events ++ timed_out label ∷ all_unsolicited ls)
unfolding command_timeout
handle_lines-command_timeout ls now label d free =
    let d' : Dialogue = command_timeout now label d in
    let e = handle_lines-idle ls d' refl free in
    (
      ap (λ t. t.current) e,
      ap (λ t. t.waiters) e,
      ap (λ t. t.events) e ∙ append_assoc d.events (timed_out label ∷ []) (all_unsolicited ls),
    )
