-- ===== src/Tests/Queries.antt =====
-- A table in memory that answers SELECT, and store/log-store.js on it.
use modem_sms_gateway.Prelude.{
  ◌≡◌, ◌↔◌, refl, sym, ap, ◌∙◌, inl, inr, Bool, true, false, List, [], ◌∷◌, Option, none, some, Str,
  codes, str_eq, str_eq_refl, str_eq_sound, if◌then◌else◌, length, arith, Bool-cases,
}
use mathlib.Core.Path.{subst}
use mathlib.Core.Option.{some-injective}
use modem_sms_gateway.Serial.Inbox.Spec.{In}
use modem_sms_gateway.Store.Query.{Selects, matches, matches_nullable}
use modem_sms_gateway.Store.LogStore.{SentRow, Entry, to_row, to_entry, SentTable, get_log}
use modem_sms_gateway.Store.LogStore.Lists.{
  Filters, where_sent, list_sent, read_pages, list_sent_lem,
}
use modem_sms_gateway.Tests.Tables.{find_row, list_table}

module _ {Row : Type 0} (key : Row → Str) where
  -- The rows without one key, and those that match.
  abbrev without_key : Str → List Row → List Row
  without_key k [] = []
  without_key k (r ∷ s) = if str_eq (key r) k then without_key k s else r ∷ without_key k s

  abbrev distinct : List Row → List Row
  distinct [] = []
  distinct (r ∷ s) = r ∷ without_key (key r) (distinct s)

  abbrev filter_rows : (Row → Bool) → List Row → List Row
  filter_rows p [] = []
  filter_rows p (r ∷ s) = if p r then r ∷ filter_rows p s else filter_rows p s

  abbrev select_rows : (Row → Bool) → List Row → Option (List Row)
  select_rows p s = some (filter_rows p (distinct s))

  In-filter :
      (p : Row → Bool) (s : List Row) (r : Row) → In r (filter_rows p s) → (p r ≡ true) × In r s
  In-filter p [] r h = absurd (h)
  In-filter p (x ∷ s) r h = go (p x) refl h (In-filter p s r)
    where
      go :
          (b : Bool)
          → p x ≡ b
          → In r (if b then x ∷ filter_rows p s else filter_rows p s)
          → (In r (filter_rows p s) → (p r ≡ true) × In r s)
          → (p r ≡ true) × In r (x ∷ s)
      go true e (inl same) f = (ap p same ∙ e, inl same)
      go true e (inr later) f = let (ok, here) = f later in (ok, inr here)
      go false e later f = let (ok, here) = f later in (ok, inr here)

  filter-In :
      (p : Row → Bool) (s : List Row) (r : Row) → p r ≡ true → In r s → In r (filter_rows p s)
  filter-In p [] r ok h = absurd (h)
  filter-In p (x ∷ s) r ok (inl same) =
      let e : p x ≡ true = ap p (sym same) ∙ ok in
      subst (λ (b : Bool). In r (if b then x ∷ filter_rows p s else filter_rows p s)) (sym e)
        (inl same)
  filter-In p (x ∷ s) r ok (inr h) = go (p x) (filter-In p s r ok h)
    where
      go :
          (b : Bool)
          → In r (filter_rows p s)
          → In r (if b then x ∷ filter_rows p s else filter_rows p s)
      go true later = inr later
      go false later = later

  In-without :
      (k : Str) (s : List Row) (r : Row)
      → In r (without_key k s)
      → (str_eq (key r) k ≡ false) × In r s
  In-without k [] r h = absurd (h)
  In-without k (x ∷ s) r h = go (str_eq (key x) k) refl h (In-without k s r)
    where
      go :
          (b : Bool)
          → str_eq (key x) k ≡ b
          → In r (if b then without_key k s else x ∷ without_key k s)
          → (In r (without_key k s) → (str_eq (key r) k ≡ false) × In r s)
          → (str_eq (key r) k ≡ false) × In r (x ∷ s)
      go true e later f = let (ok, here) = f later in (ok, inr here)
      go false e (inl same) f = (ap (λ t. str_eq (key t) k) same ∙ e, inl same)
      go false e (inr later) f = let (ok, here) = f later in (ok, inr here)

  without-In :
      (k : Str) (s : List Row) (r : Row)
      → str_eq (key r) k ≡ false
      → In r s
      → In r (without_key k s)
  without-In k [] r e h = absurd (h)
  without-In k (x ∷ s) r e (inl same) =
      let no_key : str_eq (key x) k ≡ false = ap (λ t. str_eq (key t) k) (sym same) ∙ e in
      subst (λ (b : Bool). In r (if b then without_key k s else x ∷ without_key k s)) (sym no_key)
        (inl same)
  without-In k (x ∷ s) r e (inr h) = go (str_eq (key x) k) (without-In k s r e h)
    where
      go :
          (b : Bool)
          → In r (without_key k s)
          → In r (if b then without_key k s else x ∷ without_key k s)
      go true later = later
      go false later = inr later

  str_eq_swap : (a b : Str) → str_eq a b ≡ false → str_eq b a ≡ false
  str_eq_swap a b e = elim (Bool-cases (str_eq b a)) [
    | inl same ↦
        let back : str_eq a b ≡ true = ap (str_eq a) (str_eq_sound b a same) ∙ str_eq_refl a in
        absurd (cc)
    | inr other ↦ other
  ]

  distinct-found : (s : List Row) (r : Row) → In r (distinct s) → find_row key (key r) s ≡ some r
  unfolding find_row
  distinct-found [] r h = absurd (h)
  distinct-found (x ∷ s) r (inl same) =
      let e : str_eq (key x) (key r) ≡ true =
        ap (λ t. str_eq (key x) (key t)) same ∙ str_eq_refl (key x) in
      rw e (ap some (sym same))
  distinct-found (x ∷ s) r (inr h) =
      let (other, here) = In-without (key x) (distinct s) r h in
      let e : str_eq (key x) (key r) ≡ false = str_eq_swap (key r) (key x) other in
      let later = distinct-found s r here in rw e later

  found-distinct : (s : List Row) (r : Row) → find_row key (key r) s ≡ some r → In r (distinct s)
  unfolding find_row
  found-distinct [] r h = absurd (cc)
  found-distinct (x ∷ s) r h = go (str_eq (key x) (key r)) refl h (found-distinct s r)
    where
      go :
          (b : Bool)
          → str_eq (key x) (key r) ≡ b
          → (if b then some x else find_row key (key r) s) ≡ some r
          → (find_row key (key r) s ≡ some r → In r (distinct s))
          → In r (distinct (x ∷ s))
      go true e h' f = inl (sym (some-injective x r h'))
      go false e h' f =
          inr (without-In (key x) (distinct s) r (str_eq_swap (key x) (key r) e) (f h'))

select_rows_sound :
    {Row : Type 0} (key : Row → Str) (p : Row → Bool) (s rows : List Row) (r : Row)
    → select_rows key p s ≡ some rows
    → In r rows
    → (p r ≡ true) × (find_row key (key r) s ≡ some r)
select_rows_sound key p s rows r h here =
    let all = some-injective (filter_rows key p (distinct key s)) rows h in
    let (ok, at) = In-filter key p (distinct key s) r (subst (In r) (sym all) here) in
    (ok, distinct-found key s r at)

abbrev list_selects : {Row : Type 0} (key : Row → Str) → Selects Row key (list_table key)
list_selects {Row} key = record {
  select = select_rows key;
  select_sound = select_rows_sound key;
  select_complete = λ p s rows r h at ok.
      subst (In r) (some-injective (filter_rows key p (distinct key s)) rows h)
        (filter-In key p (distinct key s) r ok (found-distinct key s r at));
}

abbrev sent_table : SentTable
sent_table = list_table (λ r. r.id)

abbrev entry_of : Str → Str → Entry
entry_of id status = record {
  id = id;
  timestamp = codes "2024-01-01";
  to = codes "+99360123456";
  message = codes "hi";
  project_name = none;
  ip = none;
  status = status;
  error = none;
  sent_at = none;
  reference = none;
  modem_id = none;
  client_ref = none;
  callback_url = none;
}

abbrev three_rows : List SentRow
three_rows =
    to_row (entry_of (codes "c") (codes "sent"))
    ∷ to_row (entry_of (codes "b") (codes "failed"))
    ∷ to_row (entry_of (codes "a") (codes "sent"))
    ∷ []

abbrev only_sent : Filters
only_sent = record {
  status = some (codes "sent");
  project_name = none;
  to = none;
  modem_id = none;
  client_ref = none;
}

first_page :
    list_sent sent_table (list_selects (λ r. r.id)) only_sent 1 0 three_rows
    ≡ some (entry_of (codes "c") (codes "sent") ∷ [], 2)
unfolding list_sent where_sent matches matches_nullable str_eq to_entry to_row
first_page = refl

list_sent_lem_example :
    (length (read_pages sent_table (list_selects (λ r. r.id)) only_sent 2 1 0 three_rows) ≡ 2)
    × ((e : Entry)
        → In e (read_pages sent_table (list_selects (λ r. r.id)) only_sent 2 1 0 three_rows) ↔ (
            (get_log sent_table e.id three_rows ≡ some e)
            × (where_sent only_sent (to_row e) ≡ true)))
list_sent_lem_example =
    list_sent_lem sent_table (list_selects (λ r. r.id)) only_sent 2 1 three_rows
      (entry_of (codes "c") (codes "sent") ∷ []) 2 first_page (omega arith)
