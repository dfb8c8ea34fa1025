-- ===== src/Serial/Lines.antt =====
-- utils/modem.js: what arrives on the port becomes lines, and the lines settle the command that is
-- waiting. A resolved or rejected promise is an event at the end of a list; a timer that fires is a
-- call.
pub mod Ends
pub mod Chunks
pub mod Response
pub mod Quiet
use modem_sms_gateway.Serial.Utf8.{idle, decode}
use modem_sms_gateway.Prelude.{
  ℕ, zero, suc, ◌+◌, Bool, true, false, not, ◌&&◌, ◌||◌, List, [], ◌∷◌, ◌++◌, Option, none, some,
  Str, codes, length, ◌==◌, if◌then◌else◌, is_empty, is_some, str_eq, starts_with, trim, trim_start,
}

unfoldable pub is_terminal_line : Str → Bool
is_terminal_line line =
    str_eq line (codes "OK")
    || str_eq line (codes "ERROR")
    || str_eq line (codes "NO CARRIER")
    || starts_with line (codes "+CMS ERROR")
    || starts_with line (codes "+CME ERROR")

unfoldable pub is_error_line : Str → Bool
unfolding is_terminal_line
is_error_line line = not (str_eq line (codes "OK")) && is_terminal_line line

-- `currentCommand`.
pub record Command : Type 0 where
  pub label : Str
  pub lines : List Str
  pub expect_prompt : Bool

-- An entry of `urcWaiters`; `id` tells one from another.
pub record Waiter : Type 0 where
  pub id : ℕ
  pub prefix : Str

-- A command is resolved with its lines, or rejected; a waiter gets a line or `null`; a line that
-- nobody waits for is logged.
pub data Event : Type 0 where
  resolved : List Str → Event
  rejected : Str → Event
  timed_out : Str → Event
  notified : ℕ → Option Str → Event
  unsolicited : Str → Event

pub record Dialogue : Type 0 where
  pub current : Option Command
  pub waiters : List Waiter
  pub quiet_until : ℕ
  pub events : List Event

pub record Serial : Type 0 where
  pub rx_buffer : Str
  pub dialogue : Dialogue

-- `settleCurrent(err)`: `none` resolves.
unfoldable pub settle_command : Option Command → Option Str → Dialogue → Dialogue
settle_command none err d = d
settle_command (some cmd) none d = record d {
  current = none;
  events = d.events ++ resolved cmd.lines ∷ [];
}
settle_command (some cmd) (some message) d = record d {
  current = none;
  events = d.events ++ rejected message ∷ [];
}

unfoldable pub settle_current : Option Str → Dialogue → Dialogue
unfolding settle_command
settle_current err d = settle_command d.current err d

unfoldable pub notify_closed : List Waiter → List Event
notify_closed [] = []
notify_closed (w ∷ ws) = notified w.id none ∷ notify_closed ws

-- `failCurrentCommand(err)`.
unfoldable pub fail_current_command : Str → Dialogue → Dialogue
unfolding settle_current notify_closed
fail_current_command message d =
    let settled = settle_current (some message) d in
    record settled { waiters = []; events = settled.events ++ notify_closed settled.waiters }

-- The first waiter for a line, taken out of the list.
unfoldable pub take_waiter : Str → List Waiter → Option (Waiter × List Waiter)
take_waiter line [] = none
take_waiter line (w ∷ ws) =
    let rest = take_waiter line ws in
    if starts_with line w.prefix
    then some (w, ws)
    else elim rest [ none ↦ none | some (v, vs) ↦ some (v, w ∷ vs) ]

unfoldable pub error_text : Str → Str → Str
error_text line label = codes "Modem responded \"" ++ (line ++ (codes "\" to " ++ label))

-- `handleLine` below the loop over the waiters.
unfoldable pub command_line : Str → Option Command → Dialogue → Dialogue
unfolding settle_command error_text is_terminal_line is_error_line
command_line line none d = record d { events = d.events ++ unsolicited line ∷ [] }
command_line line (some cmd) d =
    let cmd' = record cmd { lines = cmd.lines ++ line ∷ [] } in
    let d' = record d { current = some cmd' } in
    if is_terminal_line line
    then (if is_error_line line
        then settle_command (some cmd') (some (error_text line cmd.label)) d'
        else settle_command (some cmd') none d')
    else d'

unfoldable pub handle_line : Str → Dialogue → Dialogue
unfolding take_waiter command_line
handle_line line d = elim (take_waiter line d.waiters) [
  | some (w, ws) ↦ record d { waiters = ws; events = d.events ++ notified w.id (some line) ∷ [] }
  | none ↦ command_line line d.current d
]

abbrev pub starts_lf : Str → Bool
starts_lf [] = false
starts_lf (c ∷ s) = c == 10

abbrev pub drop_one : Str → Str
drop_one [] = []
drop_one (c ∷ s) = s

abbrev pub cons_line : ℕ → Option (Str × Str) → Option (Str × Str)
cons_line c none = none
cons_line c (some (line, rest)) = some (c ∷ line, rest)

-- The text before the first line end, `/\r\n|\n/`, and the text behind it.
unfoldable pub next_line : Str → Option (Str × Str)
next_line [] = none
next_line (c ∷ s) =
    let more = cons_line c (next_line s) in
    if c == 10
    then some ([], s)
    else (if c == 13 && starts_lf s then some ([], drop_one s) else more)

-- `if (!line) continue;`.
unfoldable pub take_line : Str → Dialogue → Dialogue
unfolding handle_line
take_line line d = if is_empty line then d else handle_line line d

-- The loop of `handleData`, and what is left in the buffer. Each line takes a character of the buffer
-- at least, so its length is enough fuel.
unfoldable pub feed : ℕ → Str → Dialogue → Dialogue × Str
unfolding next_line take_line
feed zero buffer d = (d, buffer)
feed (suc n) buffer d = elim (next_line buffer) [
  | none ↦ (d, buffer)
  | some (line, rest) ↦ feed n rest (take_line (trim line) d)
]

unfoldable pub awaits_prompt : Option Command → Bool
awaits_prompt none = false
awaits_prompt (some cmd) = cmd.expect_prompt

-- The end of `handleData`: the prompt arrives without a line end.
unfoldable pub check_prompt : Dialogue × Str → Serial
unfolding awaits_prompt settle_current
check_prompt (d, rest) =
    if awaits_prompt d.current && starts_with (trim_start rest) (codes ">")
    then record { rx_buffer = []; dialogue = settle_current none d }
    else record { rx_buffer = rest; dialogue = d }

-- `handleData` on the text of a chunk.
unfoldable pub handle_text : Str → Serial → Serial
unfolding feed check_prompt
handle_text chunk s =
    let buffer = s.rx_buffer ++ chunk in check_prompt (feed (length buffer) buffer s.dialogue)

-- `handleData(chunk)`, on the bytes of the chunk.
unfoldable pub handle_data : List ℕ → Serial → Serial
unfolding handle_text decode
handle_data chunk s = handle_text (decode idle chunk) s

-- `transact` up to the write: a command on a port that is not connected is rejected.
unfoldable pub start_command : Bool → Str → Bool → Serial → Serial
start_command true label expect_prompt s = record {
  rx_buffer = [];
  dialogue = record s.dialogue {
    current = some (record { label = label; lines = []; expect_prompt = expect_prompt });
  };
}
start_command false label expect_prompt s = record s {
  dialogue = record s.dialogue {
    events = s.dialogue.events ++ rejected (codes "Modem is not connected") ∷ [];
  };
}

-- The timer of a command, at the time `now`.
unfoldable pub command_timeout : ℕ → Str → Dialogue → Dialogue
command_timeout now label d = record d {
  current = none;
  quiet_until = now + 2000;
  events = d.events ++ timed_out label ∷ [];
}

unfoldable pub remove_waiter : ℕ → List Waiter → List Waiter
remove_waiter id [] = []
remove_waiter id (w ∷ ws) = let rest = remove_waiter id ws in if w.id == id then rest else w ∷ rest

-- `waitForUrc`, and its timer.
unfoldable pub wait_for_urc : ℕ → Str → Dialogue → Dialogue
wait_for_urc id prefix d = record d {
  waiters = d.waiters ++ record { id = id; prefix = prefix } ∷ [];
}

unfoldable pub waiter_timeout : ℕ → Dialogue → Dialogue
unfolding remove_waiter
waiter_timeout id d = record d {
  waiters = remove_waiter id d.waiters;
  events = d.events ++ notified id none ∷ [];
}
