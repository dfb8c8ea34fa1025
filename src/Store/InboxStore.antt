-- ===== src/Store/InboxStore.antt =====
-- store/inbox-store.js: the table `received_messages`, and utils/inbox-sync.js, which tags the messages of
-- a modem with its id.
use modem_sms_gateway.Prelude.{
  ℕ, ◌≡◌, Bool, ◌&&◌, List, [], ◌∷◌, ◌++◌, Option, some, Str, length, if◌then◌else◌,
}
use modem_sms_gateway.Serial.Listing.{Received}
use modem_sms_gateway.Store.Query.{page, matches_nullable}

-- A message with the id of the modem that read it.
pub record Inbound : Type 0 where
  pub message : Received
  pub modem_id : Str

-- `messages.map((x) => ({ ...x, modemId: modem.id }))`.
unfoldable pub tagged : Str → List Received → List Inbound
tagged id [] = []
tagged id (x ∷ xs) = record { message = x; modem_id = id } ∷ tagged id xs

-- A row by its columns, less the number that the database gives it.
pub record InboxRow : Type 0 where
  pub from : Option Str
  pub date : Option Str
  pub text : Str
  pub received_at : Str
  pub modem_id : Option Str

unfoldable pub inbox_row : Str → Inbound → InboxRow
inbox_row received_at m = record {
  from = some m.message.from;
  date = some m.message.date;
  text = m.message.text;
  received_at = received_at;
  modem_id = some m.modem_id;
}

unfoldable pub inbox_rows : Str → List Inbound → List InboxRow
unfolding inbox_row
inbox_rows received_at [] = []
inbox_rows received_at (m ∷ ms) = inbox_row received_at m ∷ inbox_rows received_at ms

-- Rows that are inserted one after the other, before those that are there: the newest comes first.
abbrev pub newest_first : List InboxRow → List InboxRow → List InboxRow
newest_first [] old = old
newest_first (r ∷ rs) old = newest_first rs (r ∷ old)

-- The database: `rows` by descending number; a transaction inserts all rows, or throws and inserts
-- none.
pub record InboxTable : Type 1 where
  pub State : Type 0
  pub rows : State → List InboxRow
  pub insert_all : List InboxRow → State → Option State
  pub rows-insert_all :
      (new : List InboxRow) (s s' : State)
      → insert_all new s ≡ some s'
      → rows s' ≡ newest_first new (rows s)

unfoldable pub where_received : Option Str → Option Str → InboxRow → Bool
unfolding matches_nullable
where_received modem_id from row =
    matches_nullable modem_id row.modem_id && matches_nullable from row.from

unfoldable pub select_received : Option Str → Option Str → List InboxRow → List InboxRow
unfolding where_received
select_received modem_id from [] = []
select_received modem_id from (r ∷ rs) =
    (if where_received modem_id from r then r ∷ [] else []) ++ select_received modem_id from rs

module _ (db : InboxTable) where
  -- `none` is a thrown error.
  unfoldable pub save_received : Str → List Inbound → db.State → Option db.State
  unfolding inbox_rows
  save_received now [] s = some s
  save_received now (m ∷ ms) s = db.insert_all (inbox_rows now (m ∷ ms)) s

  unfoldable pub list_received : ℕ → ℕ → Option Str → Option Str → db.State → List InboxRow
  unfolding select_received
  list_received limit offset modem_id from s =
      page limit offset (select_received modem_id from (db.rows s))

  abbrev pub count_received : db.State → ℕ
  count_received s = length (db.rows s)
