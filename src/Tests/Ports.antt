-- ===== src/Tests/Ports.antt =====
-- utils/modem.js on concrete chunks, answers and messages.
use modem_sms_gateway.Prelude.{
  ◌≡◌, ◌≤◌, ◌+◌, arith, refl, sym, All, true, false, List, [], ◌∷◌, ◌++◌, none, some, Str, codes,
  trim_start, starts_with, str_eq,
}
use modem_sms_gateway.Serial.Utf8.{idle, decode}
use modem_sms_gateway.Serial.Lines.{
  is_terminal_line, Command, timed_out, Dialogue, Serial, take_waiter, awaits_prompt, handle_data,
  command_timeout,
}
use modem_sms_gateway.Serial.Lines.Chunks.{handle_data-append}
use modem_sms_gateway.Serial.Lines.Response.{
  handle_lines, answer, all_unsolicited, handle_lines-answer,
}
use modem_sms_gateway.Serial.Lines.Quiet.{quiet_end, timed_transact, texts, timed_transact_lem}
use modem_sms_gateway.Serial.Connection.{
  Link, unset, armed, connect, fresh_link, opened, port_closed, schedule_reconnect, close, LinkRun,
  stay, then_link, on_open, on_close, on_shutdown, is_alive, LinkRun-alive,
}
use modem_sms_gateway.Serial.Listing.{parse_lines}
use modem_sms_gateway.Serial.Session.{
  Reply, replied, no_answer, dropped, transact, submit_body, send_sms,
}
use modem_sms_gateway.Serial.Session.Audit.{cut_off, bodies, Agrees}
use modem_sms_gateway.Serial.Session.Honest.{send_sms-IsHonest}
use modem_sms_gateway.Prelude.Actions.{err, plain_error}
use modem_sms_gateway.Serial.Inbox.{get_messages}
use mathlib.Core.Option.{some-injective}
use modem_sms_gateway.Store.InboxStore.{InboxRow, newest_first, InboxTable}
use modem_sms_gateway.Serial.Inbox.Sync.{fetch_and_store, KeptSafe, fetch_and_store-KeptSafe}
use modem_sms_gateway.Serial.Inbox.Spec.{SavedFirst}
use modem_sms_gateway.Serial.Inbox.Laws.{get_messages-SavedFirst}

abbrev waiting : Dialogue
waiting = record {
  current = some (record { label = codes "CMGF"; lines = []; expect_prompt = false });
  waiters = record { id = 1; prefix = codes "+CUSD" } ∷ [];
  quiet_until = 0;
  events = [];
}

abbrev port : Serial
port = record { rx_buffer = codes "+CS"; dialogue = waiting }

no_prompt : awaits_prompt port.dialogue.current ≡ false
unfolding awaits_prompt
no_prompt = refl

-- A line end that is cut between two chunks.
handle_data-append_example :
    handle_data (codes "\nOK\r\nrest") (handle_data (codes "Q: 20\r") port)
    ≡ handle_data (codes "Q: 20\r" ++ codes "\nOK\r\nrest") port
handle_data-append_example =
    handle_data-append (codes "Q: 20\r") (codes "\nOK\r\nrest") port refl no_prompt

-- A character that is cut between two chunks is read as two that cannot be read.
cut_character :
    (decode idle (0xd0 ∷ 0xb6 ∷ []) ≡ 0x0436 ∷ [])
    × (decode idle (0xd0 ∷ []) ++ decode idle (0xb6 ∷ []) ≡ 0xfffd ∷ 0xfffd ∷ [])
    × (decode idle (0xf0 ∷ 0x9f ∷ 0x98 ∷ 0x80 ∷ 0x41 ∷ []) ≡ 0xd83d ∷ 0xde00 ∷ 0x41 ∷ [])
    × (decode idle (0xed ∷ 0xa0 ∷ 0x80 ∷ []) ≡ 0xfffd ∷ 0xfffd ∷ 0xfffd ∷ [])
unfolding decode
cut_character = (refl, refl, refl, refl)

abbrev cmd : Command
cmd = record { label = codes "CMGF"; lines = []; expect_prompt = false }

middle_line :
    (take_waiter (codes "+CSQ: 20") waiting.waiters ≡ none)
    × (is_terminal_line (codes "+CSQ: 20") ≡ false)
unfolding take_waiter starts_with is_terminal_line str_eq
middle_line = (refl, refl)

last_line :
    (take_waiter (codes "OK") waiting.waiters ≡ none) × (is_terminal_line (codes "OK") ≡ true)
unfolding take_waiter starts_with is_terminal_line str_eq
last_line = (refl, refl)

handle_lines-answer_example :
    handle_lines (codes "+CSQ: 20" ∷ codes "OK" ∷ []) waiting ≡ record waiting {
      current = none;
      events = [] ++ answer cmd (codes "+CSQ: 20" ∷ []) (codes "OK") ∷ [];
    }
handle_lines-answer_example =
    handle_lines-answer (codes "+CSQ: 20" ∷ []) (codes "OK") cmd waiting (middle_line, tt)
      last_line.0 last_line.1 refl

-- The answer to a command that timed out at 5000 comes at 6000, and the next one is called at 5100.
timed_transact_lem_example :
    let timed = command_timeout 5000 (codes "CMGF") waiting in
    let r =
      timed_transact true
        (codes "CSCS")
        false
        5100
        ((6000, codes "OK") ∷ [])
        (record { rx_buffer = []; dialogue = timed }) in
    (5000 + 2000 ≤ quiet_end 5100 timed)
    × (r.1 ≡ [])
    × (r.0.dialogue.current
        ≡ some (record { label = codes "CSCS"; lines = []; expect_prompt = false }))
    × (r.0.dialogue.waiters ≡ waiting.waiters)
    × (r.0.dialogue.events
        ≡ [] ++ timed_out (codes "CMGF") ∷ all_unsolicited (texts ((6000, codes "OK") ∷ [])))
timed_transact_lem_example =
    timed_transact_lem 5000 5100 (codes "CMGF") (codes "CSCS") [] false ((6000, codes "OK") ∷ [])
      waiting ((omega arith, last_line.0), tt)

-- The prompt comes, and then nothing.
abbrev silent_modem : List Reply
silent_modem = replied [] ∷ replied [] ∷ replied [] ∷ replied [] ∷ no_answer ∷ []

send_sms-IsHonest_example :
    let r =
      send_sms [] 7
        (codes "+99360123456")
        (codes "hi")
        (record { pending = silent_modem; log = [] }) in
    Agrees (bodies r.0.log) r.1
send_sms-IsHonest_example = send_sms-IsHonest [] 7 (codes "+99360123456") (codes "hi") silent_modem

-- The port is lost while the answer to a body is awaited: an ordinary error.
cut_off_run :
    let r =
      submit_body
        (codes "AT+CMGS=\"1\"")
        (codes "CMGS")
        (codes "hi")
        (record { pending = replied [] ∷ dropped (codes "Serial port closed") ∷ []; log = [] }) in
    (bodies r.0.log ≡ cut_off) × (r.1 ≡ err (plain_error (codes "Serial port closed")))
unfolding submit_body transact
cut_off_run = (refl, refl)

abbrev listing : List Str
listing =
    codes "+CMGL: 3,\"REC UNREAD\",\"+99361\",,\"24/01/02,10:00:00+20\""
    ∷ codes "hello"
    ∷ codes "there"
    ∷ codes "OK"
    ∷ []

parse_lines_one :
    parse_lines listing none
    ≡ record {
      index = 3;
      message = record {
        status = codes "REC UNREAD";
        from = codes "+99361";
        date = codes "24/01/02,10:00:00+20";
        text = codes "hello\nthere";
      };
    }
      ∷ []
unfolding parse_lines trim_start is_terminal_line str_eq starts_with
parse_lines_one = refl

abbrev full_modem : List Reply
full_modem = replied [] ∷ replied [] ∷ replied [] ∷ replied listing ∷ replied [] ∷ []

get_messages-SavedFirst_example :
    SavedFirst
      (λ messages. none)
      (get_messages (some (λ messages. none)) (record { pending = full_modem; log = [] })).0.log
get_messages-SavedFirst_example = get_messages-SavedFirst (λ messages. none) full_modem

abbrev first_link : Link
first_link = record { connected = false; closing = false; opening = true; timer = unset; ports = 1 }

abbrev open_link : Link
open_link = record { connected = true; closing = false; opening = false; timer = unset; ports = 1 }

abbrev lost_link : Link
lost_link = record { connected = false; closing = false; opening = false; timer = armed; ports = 1 }

-- The port is lost after it was opened, and the driver is shut down before the timer fires.
lost_run : LinkRun (connect fresh_link) lost_link
unfolding connect opened port_closed schedule_reconnect
lost_run =
    then_link _ open_link _ (then_link _ first_link _ (stay first_link) (on_open first_link refl))
      (on_close open_link refl)

shut_run : LinkRun lost_link (close lost_link)
shut_run = then_link _ lost_link _ (stay lost_link) (on_shutdown lost_link)

LinkRun-alive_example :
    (is_alive lost_link ≡ true)
    × (lost_link.closing ≡ true
        → ((close lost_link).closing ≡ true) × ((close lost_link).ports ≡ lost_link.ports))
LinkRun-alive_example = LinkRun-alive lost_link (close lost_link) lost_run shut_run

abbrev list_inbox : InboxTable
list_inbox = record {
  State = List InboxRow;
  rows = λ s. s;
  insert_all = λ new s. some (newest_first new s);
  rows-insert_all = λ new s s' h. sym (some-injective (newest_first new s) s' h);
}

fetch_and_store-KeptSafe_example :
    let r =
      fetch_and_store list_inbox
        (codes "modem-1")
        (codes "now")
        (codes "disk full")
        []
        (record { pending = full_modem; log = [] }) in
    All
      (KeptSafe list_inbox (codes "modem-1") (codes "now") (codes "disk full") r.0.1 r.0.0.log)
      r.0.0.log
fetch_and_store-KeptSafe_example =
    fetch_and_store-KeptSafe list_inbox (codes "modem-1") (codes "now") (codes "disk full") []
      full_modem
