-- ===== src/Tests/Tables.antt =====
-- A table held in memory: a list of rows that satisfies the laws asked of the database.
use modem_sms_gateway.Prelude.{
  ℕ, ◌≡◌, refl, sym, ap, ◌∙◌, ◌⊎◌, inl, inr, Bool, true, false, List, [], ◌∷◌, ◌++◌, Option, none,
  some, Str, str_eq, str_eq_sound, if◌then◌else◌, is_some, Bool-cases,
}
use mathlib.Core.Option.{some-injective}
use modem_sms_gateway.Store.Table.{Table, map_option, row_count}
use modem_sms_gateway.Webhook.Queue.{JobQueue}

module _ {Row : Type 0} (key : Row → Str) where
  unfoldable pub find_row : Str → List Row → Option Row
  find_row k [] = none
  find_row k (r ∷ s) = if str_eq (key r) k then some r else find_row k s

  unfoldable pub update_row : Str → (Row → Row) → List Row → List Row
  update_row k f [] = []
  update_row k f (r ∷ s) = if str_eq (key r) k then f r ∷ s else r ∷ update_row k f s

  unfoldable pub insert_row : Row → List Row → Option (List Row)
  unfolding find_row
  insert_row r s = if is_some (find_row (key r) s) then none else some (r ∷ s)

  insert_row-cases :
      (r : Row) (s s' : List Row) (o : Option Row)
      → (if is_some o then none else some (r ∷ s)) ≡ some s'
      → (o ≡ none) × (r ∷ s ≡ s')
  insert_row-cases r s s' none h = (refl, some-injective (r ∷ s) s' h)
  insert_row-cases r s s' (some x) h = absurd (cc)

  pub insert_row_taken :
      (r : Row) (s s' : List Row)
      → insert_row r s ≡ some s'
      → (find_row (key r) s ≡ none) × (r ∷ s ≡ s')
  unfolding insert_row
  insert_row_taken r s s' h = insert_row-cases r s s' (find_row (key r) s) h

  pub find_row-insert_row :
      (r : Row) (s s' : List Row)
      → insert_row r s ≡ some s'
      → (k : Str) → find_row k s' ≡ (if str_eq (key r) k then some r else find_row k s)
  unfolding find_row
  find_row-insert_row r s s' h k = ap (find_row k) (sym (insert_row_taken r s s' h).1)

  pub find_row-update_row :
      (k : Str) (f : Row → Row) (s : List Row)
      → ((r : Row) → key (f r) ≡ key r)
      → (j : Str)
      → find_row j (update_row k f s)
        ≡ (if str_eq k j then map_option f (find_row k s) else find_row j s)
  unfolding find_row update_row
  find_row-update_row k f [] keep j = if_same (str_eq k j)
    where
      if_same : (b : Bool) → ◌≡◌ {A = Option Row} none (if b then none else none)
      if_same true = refl
      if_same false = refl
  find_row-update_row k f (r ∷ s) keep j =
      let rest = find_row-update_row k f s keep j in
      elim (Bool-cases (str_eq (key r) k)) [
        | inl e ↦
            let same = str_eq_sound (key r) k e in
            rw (e, keep r, same) (branches (str_eq k j) (f r) (find_row j s))
        | inr e ↦
            rw (e, rest)
              (other (key r) k j r (find_row j s) (map_option f (find_row k s))
                (Bool-cases (str_eq k j)) e)
      ]
    where
      branches :
          (b : Bool) (x : Row) (o : Option Row)
          → (if b then some x else o) ≡ (if b then some x else (if b then some r else o))
      branches true x o = refl
      branches false x o = refl

      other :
          (a k j : Str) (x : Row) (o u : Option Row)
          → (str_eq k j ≡ true) ⊎ (str_eq k j ≡ false)
          → str_eq a k ≡ false
          → (if str_eq a j then some x else (if str_eq k j then u else o))
            ≡ (if str_eq k j then u else (if str_eq a j then some x else o))
      other a k j x o u (inl same) e =
          let differ : str_eq a j ≡ false = ap (str_eq a) (sym (str_eq_sound k j same)) ∙ e in
          rw (same, differ) refl
      other a k j x o u (inr diff) e = rw diff refl

  pub update-parts :
      (k : Str) (f : Row → Row) (s s' : List Row) (n : ℕ)
      → ◌≡◌ {A = Option (List Row × ℕ)}
          (some (update_row k f s, row_count (find_row k s)))
          (some (s', n))
      → (update_row k f s ≡ s') × (row_count (find_row k s) ≡ n)
  update-parts k f s s' n h =
      let e =
        some-injective {A = List Row × ℕ} (update_row k f s, row_count (find_row k s)) (s', n) h in
      (ap (λ t. t.0) e, ap (λ t. t.1) e)

-- The tables' laws hold of a list of rows.
abbrev pub list_table : {Row : Type 0} (key : Row → Str) → Table Row key
list_table {Row} key = record {
  State = List Row;
  insert = insert_row key;
  find = find_row key;
  update = λ k f s. some (update_row key k f s, row_count (find_row key k s));
  insert_taken = λ r s s' h. (insert_row_taken key r s s' h).0;
  find-insert = find_row-insert_row key;
  find-update = λ k f s s' n keep h j.
      ap (find_row key j) (sym ((update-parts key k f s s' n h).0))
      ∙ find_row-update_row key k f s keep j;
  update_count = λ k f s s' n h. sym (update-parts key k f s s' n h).1;
}

-- A job queue that takes every job.
abbrev pub list_queue : (Job : Type 0) → JobQueue Job
list_queue Job = record {
  State = List Job;
  jobs = λ q. q;
  add = λ j q. some (q ++ j ∷ []);
  jobs-add = λ j q q' h. sym (some-injective (q ++ j ∷ []) q' h);
}
