-- ===== src/Store/Table.antt =====
-- The database, which is not part of the repository: one table with a text primary key, as the
-- statements of store/log-store.js and store/ussd-store.js use it. `none` is a thrown error.
use modem_sms_gateway.Prelude.{ℕ, ◌≡◌, Option, none, some, Str, str_eq, if◌then◌else◌}

abbrev pub map_option : {A B : Type 0} → (A → B) → Option A → Option B
map_option f none = none
map_option f (some a) = some (f a)

-- How many rows an UPDATE by primary key changes.
abbrev pub row_count : {A : Type 0} → Option A → ℕ
row_count none = 0
row_count (some a) = 1

pub record Table (Row : Type 0) (key : Row → Str) : Type 1 where
  pub State : Type 0
  -- INSERT INTO … VALUES …
  pub insert : Row → State → Option State
  -- SELECT * FROM … WHERE id = ?
  pub find : Str → State → Option Row
  -- UPDATE … SET … WHERE id = ?, with the number of rows changed.
  pub update : Str → (Row → Row) → State → Option (State × ℕ)
  -- A primary key is taken once: a second row with the key is refused.
  pub insert_taken : (r : Row) (s s' : State) → insert r s ≡ some s' → find (key r) s ≡ none
  pub find-insert :
      (r : Row) (s s' : State)
      → insert r s ≡ some s'
      → (k : Str) → find k s' ≡ (if str_eq (key r) k then some r else find k s)
  pub find-update :
      (k : Str) (f : Row → Row) (s s' : State) (n : ℕ)
      → ((r : Row) → key (f r) ≡ key r)
      → update k f s ≡ some (s', n)
      → (j : Str) → find j s' ≡ (if str_eq k j then map_option f (find k s) else find j s)
  pub update_count :
      (k : Str) (f : Row → Row) (s s' : State) (n : ℕ)
      → update k f s ≡ some (s', n)
      → n ≡ row_count (find k s)
