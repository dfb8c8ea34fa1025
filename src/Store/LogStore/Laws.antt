-- ===== src/Store/LogStore/Laws.antt =====
-- store/log-store.js: lookups after `appendLog` and `updateLog`.
use modem_sms_gateway.Prelude.{
  ℕ, ◌≡◌, refl, sym, ap, ◌∙◌, inl, inr, Bool, true, false, Option, none, some, arith, Str, str_eq,
  str_eq_refl, str_eq_sound, ◌==◌, if◌then◌else◌, or_else, Bool-cases, Option-cases,
}
use modem_sms_gateway.Store.Table.{map_option, row_count}
use modem_sms_gateway.Store.LogStore.{
  SentRow, Entry, to_entry, to_row, Patch, has_sets, apply_patch, SentTable, append_log, get_log,
  updated, update_log,
}

-- What a patch makes of an entry.
abbrev pub patched : Patch → Entry → Entry
patched p e = record e {
  status = or_else p.status e.status;
  error = or_else p.error e.error;
  sent_at = or_else p.sent_at e.sent_at;
  reference = or_else p.reference e.reference;
  modem_id = or_else p.modem_id e.modem_id;
}

to_entry-apply_patch :
    (p : Patch) (o : Option SentRow)
    → map_option to_entry (map_option (apply_patch p) o)
      ≡ map_option (patched p) (map_option to_entry o)
unfolding apply_patch to_entry
to_entry-apply_patch p none = refl
to_entry-apply_patch p (some row) = refl

patched_nothing : (p : Patch) (e : Entry) → has_sets p ≡ false → patched p e ≡ e
unfolding has_sets
patched_nothing p e h = ground arith

map_patched_nothing :
    (p : Patch) (o : Option Entry) → has_sets p ≡ false → map_option (patched p) o ≡ o
map_patched_nothing p none h = refl
map_patched_nothing p (some e) h = ap some (patched_nothing p e h)

-- Zero rows changed is the test for a missing row.
counted :
    (p : Patch) (o : Option SentRow)
    → (if row_count o == 0 then none else map_option (patched p) (map_option to_entry o))
      ≡ map_option (patched p) (map_option to_entry o)
counted p none = refl
counted p (some row) = refl

unpack :
    {A B : Type 0} (a : A) (b : B) (c : A) (d : B)
    → ◌≡◌ {A = Option (A × B)} (some (a, b)) (some (c, d))
    → (a ≡ c) × (b ≡ d)
unpack a b c d h = ground arith

module _ (db : SentTable) where
  -- Logging an entry under a new id: it reads back as it was given, and no other entry changes.
  pub get_log-append_log :
      (entry : Entry) (s s' : db.State) (id : Str)
      → append_log db entry s ≡ some s'
      → (get_log db entry.id s ≡ none)
        × (get_log db id s' ≡ (if str_eq entry.id id then some entry else get_log db id s))
  unfolding append_log get_log to_row to_entry
  get_log-append_log entry s s' id h = (
    rw (db.insert_taken (to_row entry) s s' h) refl,
    rw (db.find-insert (to_row entry) s s' h id) (ground arith),
  )

  row_of :
      (id j : Str) (p : Patch) (s s1 : db.State) (n : ℕ)
      → db.update id (apply_patch p) s ≡ some (s1, n)
      → (get_log db j s1
          ≡ (if str_eq id j then map_option (patched p) (get_log db id s) else get_log db j s))
        × ((if n == 0 then none else get_log db id s1) ≡ map_option (patched p) (get_log db id s))
  unfolding get_log apply_patch
  row_of id j p s s1 n e =
      let found = db.find-update id (apply_patch p) s s1 n (λ r. refl) e in
      let self : db.find id s1 ≡ map_option (apply_patch p) (db.find id s) =
        found id ∙ rw (str_eq_refl id) refl in
      let after = ap (map_option to_entry) self ∙ to_entry-apply_patch p (db.find id s) in
      (
        ap (map_option to_entry) (found j) ∙ pick (str_eq id j) (db.find j s),
        rw (db.update_count id (apply_patch p) s s1 n e, after) (counted p (db.find id s)),
      )
    where
      pick :
          (b : Bool) (o : Option SentRow)
          → map_option to_entry (if b then map_option (apply_patch p) (db.find id s) else o) ≡ (
              if b
              then map_option (patched p) (map_option to_entry (db.find id s))
              else map_option to_entry o)
      pick true o = to_entry-apply_patch p (db.find id s)
      pick false o = refl

  update_log_sets :
      (id : Str) (p : Patch) (s : db.State) (o : Option (db.State × ℕ))
      → has_sets p ≡ true
      → db.update id (apply_patch p) s ≡ o
      → update_log db id p s ≡ map_option (updated db id) o
  unfolding update_log
  update_log_sets id p s o sets e = rw (sets, e) refl

  update_log_empty :
      (id : Str) (p : Patch) (s : db.State)
      → has_sets p ≡ false
      → update_log db id p s ≡ some (s, get_log db id s)
  unfolding update_log
  update_log_empty id p s empty = rw empty refl

  same_key :
      (id j : Str) (s : db.State)
      → get_log db j s ≡ (if str_eq id j then get_log db id s else get_log db j s)
  same_key id j s = elim (Bool-cases (str_eq id j)) [
    | inl same ↦ rw (same, str_eq_sound id j same) refl
    | inr other ↦ rw other refl
  ]

  -- An update that does not throw returns the patched entry, or `null` exactly when there is none
  -- under the id; afterwards that entry reads back patched and every other one as before.
  pub get_log-update_log :
      (id j : Str) (p : Patch) (s s' : db.State) (result : Option Entry)
      → update_log db id p s ≡ some (s', result)
      → (result ≡ map_option (patched p) (get_log db id s))
        × (get_log db j s'
            ≡ (if str_eq id j then map_option (patched p) (get_log db id s) else get_log db j s))
  unfolding updated
  get_log-update_log id j p s s' result h = elim (Bool-cases (has_sets p)) [
    | inl sets ↦ elim (Option-cases (db.update id (apply_patch p) s)) [
      | inl failed ↦ absurd (cc (update_log_sets id p s none sets failed))
      | inr ((s1, n), e) ↦
          let (a, b) =
            unpack s1 (if n == 0 then none else get_log db id s1) s' result
              (sym (update_log_sets id p s (some (s1, n)) sets e) ∙ h) in
          let (rows, back) = row_of id j p s s1 n e in
          (sym b ∙ back, ap (get_log db j) (sym a) ∙ rows)
    ]
    | inr empty ↦
        let (a, b) =
          unpack s (get_log db id s) s' result (sym (update_log_empty id p s empty) ∙ h) in
        (
          sym b ∙ sym (map_patched_nothing p (get_log db id s) empty),
          ap (get_log db j) (sym a)
              ∙ rw (map_patched_nothing p (get_log db id s) empty) (same_key id j s),
        )
  ]
