-- ===== src/Adb/Bridge.antt =====
-- utils/adb.js: `getMessages`, which drains the file of the companion application. The two files of the
-- device are part of the state, with the effect that the commands have on them.
pub mod Kept
use modem_sms_gateway.Prelude.{
  Bool, true, false, not, ◌||◌, List, [], ◌∷◌, ◌++◌, Option, none, some, Str, codes, ◌==◌,
  if◌then◌else◌, is_empty, trim,
}
use modem_sms_gateway.Prelude.Actions.{
  Failure, Result, ok, err, Action, pure, bind_from, ◌>>=◌, ◌>>◌, plain_error, catch_from,
  try_catch,
}
use modem_sms_gateway.Serial.Listing.{Received}

-- A command ends well, or its answer is lost after it ran, or it never ran.
pub data Fate : Type 0 where
  answered lost unreached : Fate

-- `incoming.jsonl` and `incoming.reading.jsonl`, and the lists that the database took.
pub record Files : Type 0 where
  pub incoming : Str
  pub reading : Str
  pub fates : List Fate
  pub saved : List (List Received)

abbrev pub B : Type 0 → Type 0
B A = Action Files A

-- After the last fate that is given in advance the device is gone.
abbrev pub first_fate : List Fate → Fate
first_fate [] = unreached
first_fate (x ∷ xs) = x

abbrev pub other_fates : List Fate → List Fate
other_fates [] = []
other_fates (x ∷ xs) = xs

abbrev pub adb_error : Failure
adb_error = plain_error (codes "adb shell failed")

-- The command `drain`: what is printed is the reading file with the captured messages added to it.
unfoldable pub drain_files : Fate → Files → Files × Result Str
drain_files answered f =
    (record f { incoming = []; reading = f.reading ++ f.incoming }, ok (f.reading ++ f.incoming))
drain_files lost f = (record f { incoming = []; reading = f.reading ++ f.incoming }, err adb_error)
drain_files unreached f = (f, err adb_error)

-- `rm -f incoming.reading.jsonl`.
unfoldable pub remove_reading : Fate → Files → Files × Result (Unit {0})
remove_reading answered f = (record f { reading = [] }, ok tt)
remove_reading lost f = (record f { reading = [] }, err adb_error)
remove_reading unreached f = (f, err adb_error)

abbrev pub with_fate : {A : Type 0} → (Fate → B A) → B A
with_fate m f = m (first_fate f.fates) (record f { fates = other_fates f.fates })

-- `out.split('\n')`, where `line` is what was read of a line.
unfoldable pub split_lines : Str → Str → List Str
split_lines line [] = line ∷ []
split_lines line (c ∷ s) =
    let next = split_lines [] s in
    let more = split_lines (line ++ c ∷ []) s in if c == 0x0a then line ∷ next else more

-- The callback: `none` when it is not given; it returns, or throws an error.
abbrev pub Persist : Type 0
Persist = Option (List Received → Option Failure)

-- A line of the file; a field that is missing or falsy is empty.
pub record BridgeLine (Stamp : Type 0) : Type 0 where
  pub from : Str
  pub date : Option Stamp
  pub text : Str

-- `parse` is `JSON.parse`, and `iso` is `new Date(date).toISOString()`, each `none` when it throws.
module _ (Stamp : Type 0) (parse : Str → Option (BridgeLine Stamp)) (iso : Stamp → Option Str) where
  abbrev pub message_at : BridgeLine Stamp → Str → Received
  message_at m date = record {
    status = codes "REC UNREAD";
    from = m.from;
    date = date;
    text = m.text;
  }

  abbrev pub date_of : Option Stamp → Option Str
  date_of none = some []
  date_of (some date) = iso date

  -- The `try` block.
  unfoldable pub read_line : Str → Option Received
  read_line line = elim (parse line) [
    | none ↦ none
    | some m ↦ elim (date_of m.date) [ none ↦ none | some date ↦ some (message_at m date) ]
  ]

  unfoldable pub read_trimmed : Str → Option Received
  unfolding read_line
  read_trimmed [] = none
  read_trimmed (c ∷ s) = read_line (c ∷ s)

  abbrev pub option_list : Option Received → List Received
  option_list none = []
  option_list (some m) = m ∷ []

  unfoldable pub read_lines : List Str → List Received
  unfolding trim read_trimmed
  read_lines [] = []
  read_lines (l ∷ ls) = option_list (read_trimmed (trim l)) ++ read_lines ls

  unfoldable pub read_output : Str → List Received
  unfolding read_lines split_lines
  read_output out = read_lines (split_lines [] out)

  unfoldable pub persisted : List Received → Option Failure → B (Unit {0})
  persisted messages none f = (record f { saved = f.saved ++ messages ∷ [] }, ok tt)
  persisted messages (some e) f = (f, err e)

  -- `if (messages.length > 0 && persist)`.
  unfoldable pub persist_messages : Persist → List Received → B (Unit {0})
  unfolding persisted
  persist_messages none messages = pure tt
  persist_messages (some persist) [] = pure tt
  persist_messages (some persist) (m ∷ ms) = persisted (m ∷ ms) (persist (m ∷ ms))

  abbrev pub drain : B Str
  drain = try_catch (with_fate drain_files) (λ e. pure [])

  abbrev pub remove : B (Unit {0})
  remove = try_catch (with_fate remove_reading) (λ e. pure tt)

  unfoldable pub take_messages : Persist → List Received → B (List Received)
  unfolding persist_messages remove_reading
  take_messages persist messages = do persist_messages persist messages; remove; pure messages

  -- `ready` is `bridgePkg && connected`.
  unfoldable pub get_messages : Bool → Persist → B (List Received)
  unfolding drain_files take_messages read_output
  get_messages false persist = pure []
  get_messages true persist = do out ← drain; take_messages persist (read_output out)
