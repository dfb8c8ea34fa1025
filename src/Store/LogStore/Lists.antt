-- ===== src/Store/LogStore/Lists.antt =====
-- store/log-store.js: `listSent` and `getMetrics`.
use modem_sms_gateway.Prelude.{
  ℕ, zero, suc, ◌+◌, ◌*◌, ◌≤◌, ◌≡◌, ◌↔◌, refl, sym, ap, ◌∙◌, inl, inr, Bool, true, false, ◌&&◌,
  List, [], ◌∷◌, ◌++◌, map, Option, none, some, arith, Str, str_eq, str_eq_sound, if◌then◌else◌,
  or_else, length, length-map, map_get, map_set, map_get-set, Bool-cases,
}
use mathlib.Core.Path.{subst}
use mathlib.Core.Option.{some-injective}
use modem_sms_gateway.Store.Table.{map_option}
use modem_sms_gateway.Store.Query.{
  Selects, page, matches, matches_nullable, text_leb, page-page, take_all,
}
use modem_sms_gateway.Store.LogStore.{SentRow, Entry, to_entry, to_row, SentTable, get_log}
use modem_sms_gateway.Serial.Inbox.Spec.{In}

-- The filters of `listSent`; what the query does not give as one text is `none`.
pub record Filters : Type 0 where
  pub status : Option Str
  pub project_name : Option Str
  pub to : Option Str
  pub modem_id : Option Str
  pub client_ref : Option Str

-- `buildWhere`.
unfoldable pub where_sent : Filters → SentRow → Bool
unfolding matches matches_nullable
where_sent f row =
    matches f.status row.status
    && matches_nullable f.project_name row.project_name
    && matches f.to row.to_number
    && matches_nullable f.modem_id row.modem_id
    && matches_nullable f.client_ref row.client_ref

-- `byStatus[row.status] = row.n` for each row of GROUP BY status.
abbrev pub bump : Str → List (Str × ℕ) → List (Str × ℕ)
bump status counts = map_set counts status (or_else (map_get counts status) 0 + 1)

unfoldable pub group_by_status : List SentRow → List (Str × ℕ)
group_by_status [] = []
group_by_status (r ∷ rs) = bump r.status (group_by_status rs)

unfoldable pub sum_counts : List (Str × ℕ) → ℕ
sum_counts [] = 0
sum_counts ((status, n) ∷ counts) = n + sum_counts counts

pub record Counts : Type 0 where
  pub total : ℕ
  pub by_status : List (Str × ℕ)

unfoldable pub count_rows : List SentRow → Counts
unfolding group_by_status sum_counts
count_rows rows = record {
  total = sum_counts (group_by_status rows);
  by_status = group_by_status rows;
}

pub record Metrics : Type 0 where
  pub all_time : Counts
  pub last24h : Counts

module _ (db : SentTable) (sel : Selects SentRow (λ r. r.id) db) where
  unfoldable pub list_sent : Filters → ℕ → ℕ → db.State → Option (List Entry × ℕ)
  unfolding where_sent
  list_sent f limit offset s =
      map_option (λ rows. (map to_entry (page limit offset rows), length rows))
        (sel.select (where_sent f) s)

  unfoldable pub count_by_status : (SentRow → Bool) → db.State → Option Counts
  unfolding count_rows
  count_by_status p s = map_option count_rows (sel.select p s)

  abbrev pub with_recent : Counts → Option Counts → Option Metrics
  with_recent all none = none
  with_recent all (some recent) = some (record { all_time = all; last24h = recent })

  -- `cutoff` is the time 24 hours ago.
  unfoldable pub get_metrics : Str → db.State → Option Metrics
  unfolding count_by_status text_leb
  get_metrics cutoff s = elim (count_by_status (λ row. true) s) [
    | none ↦ none
    | some all ↦ with_recent all (count_by_status (λ row. text_leb cutoff row.timestamp) s)
  ]

  abbrev pub messages_of : Option (List Entry × ℕ) → List Entry
  messages_of none = []
  messages_of (some (messages, total)) = messages

  -- A caller who reads page after page.
  abbrev pub read_pages : Filters → ℕ → ℕ → ℕ → db.State → List Entry
  read_pages f zero limit offset s = []
  read_pages f (suc n) limit offset s =
      messages_of (list_sent f limit offset s) ++ read_pages f n limit (offset + limit) s

  map-append : {A B : Type 0} (g : A → B) (xs ys : List A) → map g (xs ++ ys) ≡ map g xs ++ map g ys
  map-append g [] ys = refl
  map-append g (x ∷ xs) ys = ap (λ t. g x ∷ t) (map-append g xs ys)

  read_pages-page :
      (f : Filters) (n limit offset : ℕ) (s : db.State) (rows : List SentRow)
      → sel.select (where_sent f) s ≡ some rows
      → read_pages f n limit offset s ≡ map to_entry (page (n * limit) offset rows)
  read_pages-page f zero limit offset s rows e = let z : zero * limit ≡ 0 = omega arith in rw z refl
  read_pages-page f (suc n) limit offset s rows e =
      let first : messages_of (list_sent f limit offset s) ≡ map to_entry (page limit offset rows) =
        unfold list_sent in rw e refl in
      let size : suc n * limit ≡ limit + n * limit = omega arith in
      ap (λ t. t ++ read_pages f n limit (offset + limit) s) first
      ∙ ap (λ t. map to_entry (page limit offset rows) ++ t)
          (read_pages-page f n limit (offset + limit) s rows e)
      ∙ sym (map-append to_entry (page limit offset rows) (page (n * limit) (offset + limit) rows))
      ∙ ap (map to_entry) (page-page limit (n * limit) offset rows)
      ∙ ap (λ t. map to_entry (page t offset rows)) (sym size)

  In-map : (r : SentRow) (rows : List SentRow) → In r rows → In (to_entry r) (map to_entry rows)
  In-map r [] h = absurd (h)
  In-map r (x ∷ xs) (inl e) = inl (ap to_entry e)
  In-map r (x ∷ xs) (inr h) = inr (In-map r xs h)

  map-In : (e : Entry) (rows : List SentRow) → In e (map to_entry rows) → In (to_row e) rows
  unfolding to_entry to_row
  map-In e [] h = absurd (h)
  map-In e (x ∷ xs) (inl same) = inl (ap to_row same)
  map-In e (x ∷ xs) (inr h) = inr (map-In e xs h)

  module _ (f : Filters) (s : db.State) (rows : List SentRow)
      (e : sel.select (where_sent f) s ≡ some rows) where
    listed :
        (entry : Entry)
        → In entry (map to_entry rows)
        → (get_log db entry.id s ≡ some entry) × (where_sent f (to_row entry) ≡ true)
    unfolding get_log to_entry to_row
    listed entry here =
        let (ok, at) =
          sel.select_sound (where_sent f) s rows (to_row entry) e (map-In entry rows here) in
        (ap (map_option to_entry) at, ok)

    found :
        (entry : Entry)
        → get_log db entry.id s ≡ some entry
        → where_sent f (to_row entry) ≡ true
        → In entry (map to_entry rows)
    unfolding get_log to_entry to_row
    found entry at ok = go (db.find entry.id s) refl at
      where
        go :
            (o : Option SentRow)
            → db.find entry.id s ≡ o
            → map_option to_entry o ≡ some entry
            → In entry (map to_entry rows)
        go none h k = absurd (cc)
        go (some r) h k =
            let same : r ≡ to_row entry = ap to_row (some-injective _ _ k) in
            In-map (to_row entry) rows
              (sel.select_complete (where_sent f) s rows (to_row entry) e (h ∙ ap some same) ok)

  -- Reading page after page until all of `total` is covered gives as many messages as `total` says, and
  -- they are exactly the logged messages that match the filters.
  pub list_sent_lem :
      (f : Filters) (n limit : ℕ) (s : db.State) (messages : List Entry) (total : ℕ)
      → list_sent f limit 0 s ≡ some (messages, total)
      → total ≤ n * limit
      → (length (read_pages f n limit 0 s) ≡ total)
        × ((e : Entry)
            → In e (read_pages f n limit 0 s)
              ↔ ((get_log db e.id s ≡ some e) × (where_sent f (to_row e) ≡ true)))
  list_sent_lem f n limit s messages total h enough = go (sel.select (where_sent f) s) refl
    where
      go :
          (o : Option (List SentRow))
          → sel.select (where_sent f) s ≡ o
          → (length (read_pages f n limit 0 s) ≡ total)
            × ((e : Entry)
                → In e (read_pages f n limit 0 s)
                  ↔ ((get_log db e.id s ≡ some e) × (where_sent f (to_row e) ≡ true)))
      go none e =
          let bad : list_sent f limit 0 s ≡ none = unfold list_sent in rw e refl in
          absurd (cc (bad, h))
      go (some rows) e =
          let given : list_sent f limit 0 s ≡ some (map to_entry (page limit 0 rows), length rows) =
            unfold list_sent in rw e refl in
          let same = some-injective _ _ (sym h ∙ given) in
          let counted : total ≡ length rows = ap (λ t. t.1) same in
          let all : read_pages f n limit 0 s ≡ map to_entry rows =
            read_pages-page f n limit 0 s rows e
            ∙ ap (map to_entry) (take_all (n * limit) rows (omega (arith, counted, enough))) in
          (
            ap length all ∙ length-map to_entry rows ∙ sym counted,
            λ entry. (
              λ here. listed f s rows e entry (subst (λ (t : List Entry). In entry t) all here),
              λ there.
                  subst (λ (t : List Entry). In entry t) (sym all)
                    (found f s rows e entry there.0 there.1),
            ),
          )

-- How many rows have a status.
abbrev pub rows_with : Str → List SentRow → ℕ
rows_with status [] = 0
rows_with status (r ∷ rs) = (if str_eq r.status status then 1 else 0) + rows_with status rs

sum-bump :
    (status : Str) (counts : List (Str × ℕ))
    → sum_counts (bump status counts) ≡ 1 + sum_counts counts
unfolding sum_counts map_set map_get
sum-bump status [] = omega arith
sum-bump status ((k, n) ∷ counts) = go (str_eq k status) (sum-bump status counts)
  where
    go :
        (b : Bool)
        → sum_counts (map_set counts status (or_else (map_get counts status) 0 + 1))
          ≡ 1 + sum_counts counts
        → sum_counts (
            let v = or_else (if b then some n else map_get counts status) 0 + 1 in
            if b then (k, v) ∷ counts else (k, n) ∷ map_set counts status v)
          ≡ 1 + (n + sum_counts counts)
    go true h = omega arith
    go false h = omega (arith, h)

-- The counts of `getMetrics` add up to the number of rows, and the count of a status is the number of
-- rows that have it.
count_rows_lem :
    (rows : List SentRow)
    → ((count_rows rows).total ≡ length rows)
      × ((status : Str)
          → or_else (map_get (count_rows rows).by_status status) 0 ≡ rows_with status rows)
unfolding count_rows group_by_status sum_counts map_get
count_rows_lem [] = (refl, λ status. refl)
count_rows_lem (r ∷ rs) =
    let (total, each) = count_rows_lem rs in
    let counts = group_by_status rs in
    (sum-bump r.status counts ∙ omega (arith, total), λ status. count status (each status))
  where
    count :
        (status : Str)
        → or_else (map_get (group_by_status rs) status) 0 ≡ rows_with status rs
        → or_else (map_get (bump r.status (group_by_status rs)) status) 0
          ≡ rows_with status (r ∷ rs)
    count status h =
        rw
          (map_get-set (group_by_status rs) r.status status
            (or_else (map_get (group_by_status rs) r.status) 0 + 1))
          (elim (Bool-cases (str_eq r.status status)) [
            | inl e ↦
                let same = str_eq_sound r.status status e in
                rw e
                  (ap (λ t. or_else (map_get (group_by_status rs) t) 0 + 1) same ∙ omega (arith, h))
            | inr e ↦ rw e (omega (arith, h))
          ])
