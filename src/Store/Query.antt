-- ===== src/Store/Query.antt =====
-- The SELECT statements that the stores' lists use: what the database gives, and pages of it. `none` is a
-- thrown error.
use modem_sms_gateway.Prelude.{
  ℕ, ◌+◌, ◌≡◌, refl, sym, ap, ◌∙◌, Bool, true, false, ◌&&◌, ◌||◌, List, [], ◌∷◌, ◌++◌, Option, none,
  some, Str, str_eq, ◌==◌, ltb, length, take, drop, drop-drop,
}
use modem_sms_gateway.Prelude.{zero, suc, ◌≤◌, arith}
use modem_sms_gateway.Store.Table.{Table}
use modem_sms_gateway.Serial.Inbox.Spec.{In}

-- SELECT * FROM … WHERE … ORDER BY … DESC: the rows that match, newest first.
pub record Selects (Row : Type 0) (key : Row → Str) (db : Table Row key) : Type 1 where
  pub select : (Row → Bool) → db.State → Option (List Row)
  pub select_sound :
      (p : Row → Bool) (s : db.State) (rows : List Row) (r : Row)
      → select p s ≡ some rows
      → In r rows
      → (p r ≡ true) × (db.find (key r) s ≡ some r)
  pub select_complete :
      (p : Row → Bool) (s : db.State) (rows : List Row) (r : Row)
      → select p s ≡ some rows
      → db.find (key r) s ≡ some r
      → p r ≡ true
      → In r rows

-- LIMIT … OFFSET …
abbrev pub page : {A : Type 0} → ℕ → ℕ → List A → List A
page limit offset rows = take limit (drop offset rows)

-- `column = @field`, if the filter is a text that is not empty; no comparison with NULL holds.
unfoldable pub matches : Option Str → Str → Bool
matches none column = true
matches (some []) column = true
matches (some (c ∷ s)) column = str_eq column (c ∷ s)

unfoldable pub matches_nullable : Option Str → Option Str → Bool
matches_nullable none column = true
matches_nullable (some []) column = true
matches_nullable (some (c ∷ s)) none = false
matches_nullable (some (c ∷ s)) (some column) = str_eq column (c ∷ s)

-- Text comparison, `a <= b`.
unfoldable pub text_leb : Str → Str → Bool
text_leb [] b = true
text_leb (x ∷ a) [] = false
text_leb (x ∷ a) (y ∷ b) = ltb x y || (x == y && text_leb a b)

take_nil : {A : Type 0} (n : ℕ) → take {A = A} n [] ≡ []
take_nil zero = refl
take_nil (suc n) = refl

take_more : {A : Type 0} (k l : ℕ) (xs : List A) → take k xs ++ take l (drop k xs) ≡ take (k + l) xs
take_more zero l xs = let e : zero + l ≡ l = omega arith in rw e refl
take_more (suc k) l [] = let e : suc k + l ≡ suc (k + l) = omega arith in rw e (take_nil l)
take_more (suc k) l (x ∷ xs) =
    let e : suc k + l ≡ suc (k + l) = omega arith in rw e (ap (λ t. x ∷ t) (take_more k l xs))

-- Two pages that follow one another are one page.
pub page-page :
    {A : Type 0} (k l i : ℕ) (rows : List A)
    → page k i rows ++ page l (i + k) rows ≡ page (k + l) i rows
page-page k l i rows =
    ap (λ t. take k (drop i rows) ++ take l t) (sym (drop-drop i k rows))
    ∙ take_more k l (drop i rows)

pub take_all : {A : Type 0} (n : ℕ) (xs : List A) → length xs ≤ n → take n xs ≡ xs
take_all zero [] h = refl
take_all zero (x ∷ xs) h = absurd (omega (arith, h))
take_all (suc n) [] h = refl
take_all (suc n) (x ∷ xs) h = ap (λ t. x ∷ t) (take_all n xs (omega (arith, h)))
