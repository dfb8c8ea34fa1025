-- ===== src/Store/LogStore.antt =====
-- store/log-store.js: the table `sent_messages`.
pub mod Laws
pub mod Lists
use modem_sms_gateway.Prelude.{
  ℕ, Bool, true, false, ◌||◌, Option, none, some, Str, codes, ◌==◌, if◌then◌else◌, or_else, is_some,
}
use modem_sms_gateway.Store.Table.{Table, map_option}

-- A row of `sent_messages`, by its columns.
pub record SentRow : Type 0 where
  pub id : Str
  pub timestamp : Str
  pub to_number : Str
  pub message : Str
  pub project_name : Option Str
  pub ip : Option Str
  pub status : Str
  pub error : Option Str
  pub sent_at : Option Str
  pub reference : Option Str
  pub modem_id : Option Str
  pub client_ref : Option Str
  pub callback_url : Option Str

-- The entry that callers see and give; a missing field and a `null` one are both `none`.
pub record Entry : Type 0 where
  pub id : Str
  pub timestamp : Str
  pub to : Str
  pub message : Str
  pub project_name : Option Str
  pub ip : Option Str
  pub status : Str
  pub error : Option Str
  pub sent_at : Option Str
  pub reference : Option Str
  pub modem_id : Option Str
  pub client_ref : Option Str
  pub callback_url : Option Str

unfoldable pub to_entry : SentRow → Entry
to_entry row = record {
  id = row.id;
  timestamp = row.timestamp;
  to = row.to_number;
  message = row.message;
  project_name = row.project_name;
  ip = row.ip;
  status = row.status;
  error = row.error;
  sent_at = row.sent_at;
  reference = row.reference;
  modem_id = row.modem_id;
  client_ref = row.client_ref;
  callback_url = row.callback_url;
}

-- The parameters of the INSERT statement.
unfoldable pub to_row : Entry → SentRow
to_row entry = record {
  id = entry.id;
  timestamp = entry.timestamp;
  to_number = entry.to;
  message = entry.message;
  project_name = entry.project_name;
  ip = entry.ip;
  status = entry.status;
  error = entry.error;
  sent_at = entry.sent_at;
  reference = entry.reference;
  modem_id = entry.modem_id;
  client_ref = entry.client_ref;
  callback_url = entry.callback_url;
}

-- The fields in `PATCHABLE`: `none` is a field that is not in the patch, `some none` one that is
-- `null`. A status is always a text.
pub record Patch : Type 0 where
  pub status : Option Str
  pub error : Option (Option Str)
  pub sent_at : Option (Option Str)
  pub reference : Option (Option Str)
  pub modem_id : Option (Option Str)

abbrev pub no_patch : Patch
no_patch = record { status = none; error = none; sent_at = none; reference = none; modem_id = none }

-- `sets.length > 0`.
unfoldable pub has_sets : Patch → Bool
has_sets p =
    is_some p.status
    || is_some p.error
    || is_some p.sent_at
    || is_some p.reference
    || is_some p.modem_id

-- The SET list of the UPDATE statement, on one row.
unfoldable pub apply_patch : Patch → SentRow → SentRow
apply_patch p row = record row {
  status = or_else p.status row.status;
  error = or_else p.error row.error;
  sent_at = or_else p.sent_at row.sent_at;
  reference = or_else p.reference row.reference;
  modem_id = or_else p.modem_id row.modem_id;
}

abbrev pub SentTable : Type 1
SentTable = Table SentRow (λ r. r.id)

module _ (db : SentTable) where
  -- `none` is a thrown error, such as an id that is taken.
  unfoldable pub append_log : Entry → db.State → Option db.State
  append_log entry s = db.insert (to_row entry) s

  unfoldable pub get_log : Str → db.State → Option Entry
  get_log id s = map_option to_entry (db.find id s)

  -- After the UPDATE: no row changed is `null`.
  unfoldable pub updated : Str → db.State × ℕ → db.State × Option Entry
  unfolding get_log
  updated id (s, n) = (s, if n == 0 then none else get_log id s)

  -- The new state and the entry or `null`; `none` is a thrown error.
  unfoldable pub update_log : Str → Patch → db.State → Option (db.State × Option Entry)
  unfolding get_log updated
  update_log id patch s =
      if has_sets patch
      then map_option (updated id) (db.update id (apply_patch patch) s)
      else some (s, get_log id s)
