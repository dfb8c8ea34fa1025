-- ===== src/Ussd/Store.antt =====
-- store/ussd-store.js: the table `ussd_requests`.
pub mod Laws
use modem_sms_gateway.Prelude.{
  ℕ, Bool, ◌&&◌, str_eq, map, length, List, [], ◌∷◌, Option, none, some, Str, codes, ◌==◌,
  if◌then◌else◌,
}
use modem_sms_gateway.Store.Table.{Table, map_option}
use modem_sms_gateway.Store.Query.{Selects, page, matches}

-- A row of `ussd_requests`, by its columns.
pub record UssdRow : Type 0 where
  pub id : Str
  pub modem_id : Str
  pub kind : Str
  pub code : Str
  pub status : Str
  pub reply : Option Str
  pub error : Option Str
  pub requested_at : Str
  pub completed_at : Option Str

-- An entry as callers see it.
pub record Request : Type 0 where
  pub id : Str
  pub modem_id : Str
  pub kind : Str
  pub code : Str
  pub status : Str
  pub reply : Option Str
  pub error : Option Str
  pub requested_at : Str
  pub completed_at : Option Str

abbrev pub done_status : Str
done_status = codes "done"

unfoldable pub to_request : UssdRow → Request
to_request row = record {
  id = row.id;
  modem_id = row.modem_id;
  kind = row.kind;
  code = row.code;
  status = row.status;
  reply = row.reply;
  error = row.error;
  requested_at = row.requested_at;
  completed_at = row.completed_at;
}

-- `entry.status || 'pending'`.
abbrev pub status_or_pending : Str → Str
status_or_pending [] = codes "pending"
status_or_pending (c ∷ s) = c ∷ s

unfoldable pub to_ussd_row : Request → UssdRow
to_ussd_row entry = record {
  id = entry.id;
  modem_id = entry.modem_id;
  kind = entry.kind;
  code = entry.code;
  status = status_or_pending entry.status;
  reply = entry.reply;
  error = entry.error;
  requested_at = entry.requested_at;
  completed_at = entry.completed_at;
}

-- The SET list of `completeRequest`.
pub record Completion : Type 0 where
  pub status : Str
  pub reply : Option Str
  pub error : Option Str
  pub completed_at : Str

unfoldable pub complete_row : Completion → UssdRow → UssdRow
complete_row done row = record row {
  status = done.status;
  reply = done.reply;
  error = done.error;
  completed_at = some done.completed_at;
}

abbrev pub UssdTable : Type 1
UssdTable = Table UssdRow (λ r. r.id)

module _ (db : UssdTable) where
  unfoldable pub create_request : Request → db.State → Option db.State
  create_request entry s = db.insert (to_ussd_row entry) s

  unfoldable pub get_request : Str → db.State → Option Request
  get_request id s = map_option to_request (db.find id s)

  unfoldable pub completed : Str → db.State × ℕ → db.State × Option Request
  unfolding get_request
  completed id (s, n) = (s, if n == 0 then none else get_request id s)

  unfoldable pub complete_request : Str → Completion → db.State → Option (db.State × Option Request)
  unfolding completed
  complete_request id done s = map_option (completed id) (db.update id (complete_row done) s)

-- The WHERE clauses of `latestDone` and `listRequests`.
unfoldable pub is_done_of : Str → Str → UssdRow → Bool
unfolding str_eq
is_done_of modem_id kind row =
    str_eq row.modem_id modem_id && str_eq row.kind kind && str_eq row.status done_status

unfoldable pub where_requests : Option Str → Option Str → UssdRow → Bool
unfolding matches
where_requests kind modem_id row = matches kind row.kind && matches modem_id row.modem_id

abbrev pub first_request : List UssdRow → Option Request
first_request [] = none
first_request (r ∷ rs) = some (to_request r)

-- `none` is a thrown error.
module _ (db : UssdTable) (sel : Selects UssdRow (λ r. r.id) db) where
  unfoldable pub latest_done : Str → Str → db.State → Option (Option Request)
  unfolding is_done_of to_request
  latest_done modem_id kind s = map_option first_request (sel.select (is_done_of modem_id kind) s)

  unfoldable pub list_requests :
      Option Str → Option Str → ℕ → ℕ → db.State → Option (List Request × ℕ)
  unfolding where_requests
  list_requests kind modem_id limit offset s =
      map_option (λ rows. (map to_request (page limit offset rows), length rows))
        (sel.select (where_requests kind modem_id) s)
