-- ===== src/Serial/Lines/Ends.antt =====
-- utils/modem.js: line ends in a text that goes on.
use modem_sms_gateway.Prelude.{
  ℕ, ◌≤◌, ◌<◌, ◌≡◌, refl, sym, ap, ◌∙◌, inl, inr, Bool, true, false, ◌&&◌, [], ◌∷◌, ◌++◌, Option,
  none, some, arith, Str, length, ◌==◌, Bool-cases,
}
use modem_sms_gateway.Serial.Lines.{starts_lf, drop_one, cons_line, next_line}

next_line_lf : (c : ℕ) (s : Str) → (c == 10) ≡ true → next_line (c ∷ s) ≡ some ([], s)
unfolding next_line
next_line_lf c s e = rw e refl

next_line_crlf :
    (c : ℕ) (s : Str)
    → (c == 10) ≡ false
    → (c == 13 && starts_lf s) ≡ true
    → next_line (c ∷ s) ≡ some ([], drop_one s)
unfolding next_line
next_line_crlf c s e e' = rw (e, e') refl

next_line_more :
    (c : ℕ) (s : Str)
    → (c == 10) ≡ false
    → (c == 13 && starts_lf s) ≡ false
    → next_line (c ∷ s) ≡ cons_line c (next_line s)
unfolding next_line
next_line_more c s e e' = rw (e, e') refl

some_pair :
    (a b c d : Str) → ◌≡◌ {A = Option (Str × Str)} (some (a, b)) (some (c, d)) → (a ≡ c) × (b ≡ d)
some_pair a b c d h = ground arith

cons_line-some :
    (c : ℕ) (o : Option (Str × Str)) (l r : Str)
    → cons_line c o ≡ some (l, r)
    → (l' : Str) × (o ≡ some (l', r)) × (c ∷ l' ≡ l)
cons_line-some c none l r h = absurd (cc)
cons_line-some c (some (l', r')) l r h =
    let (e, e') = some_pair (c ∷ l') r' l r h in (l', ap (λ t. some (l', t)) e', e)

starts_lf-append :
    (s b : Str)
    → starts_lf s ≡ true
    → (starts_lf (s ++ b) ≡ true) × (drop_one (s ++ b) ≡ drop_one s ++ b)
starts_lf-append [] b h = absurd (cc)
starts_lf-append (c ∷ s) b h = (h, refl)

starts_lf_same :
    (s b : Str) (p : Str × Str) → next_line s ≡ some p → starts_lf (s ++ b) ≡ starts_lf s
unfolding next_line
starts_lf_same [] b p h = absurd (cc)
starts_lf_same (c ∷ s) b p h = refl

and-true : (a b : Bool) → (a && b) ≡ true → (a ≡ true) × (b ≡ true)
and-true a b h = ground arith

pub next_line-append :
    (a b l r : Str) → next_line a ≡ some (l, r) → next_line (a ++ b) ≡ some (l, r ++ b)
next_line-append [] b l r h = absurd (unfold next_line in cc)
next_line-append (c ∷ s) b l r h = elim (Bool-cases (c == 10)) [
  | inl lf ↦
      let (e, e') = some_pair [] s l r (sym (next_line_lf c s lf) ∙ h) in
      next_line_lf c (s ++ b) lf ∙ rw (sym e, sym e') refl
  | inr no_lf ↦ elim (Bool-cases (c == 13 && starts_lf s)) [
    | inl crlf ↦
        let (e, e') = some_pair [] (drop_one s) l r (sym (next_line_crlf c s no_lf crlf) ∙ h) in
        let (cr, lf) = and-true (c == 13) (starts_lf s) crlf in
        let (lf', dropped) = starts_lf-append s b lf in
        next_line_crlf c (s ++ b) no_lf (rw (cr, lf') refl) ∙ rw (dropped, sym e, sym e') refl
    | inr more ↦
        let (l', e, e') =
          cons_line-some c (next_line s) l r (sym (next_line_more c s no_lf more) ∙ h) in
        next_line_more c (s ++ b) no_lf (rw (starts_lf_same s b (l', r) e) more)
        ∙ rw (next_line-append s b l' r e, e') refl
  ]
]

length-drop_one : (s : Str) → length (drop_one s) ≤ length s
length-drop_one [] = omega arith
length-drop_one (c ∷ s) = omega arith

pub next_line_shorter : (a l r : Str) → next_line a ≡ some (l, r) → length r < length a
next_line_shorter [] l r h = absurd (unfold next_line in cc)
next_line_shorter (c ∷ s) l r h = elim (Bool-cases (c == 10)) [
  | inl lf ↦
      let (e, e') = some_pair [] s l r (sym (next_line_lf c s lf) ∙ h) in rw (sym e') (omega arith)
  | inr no_lf ↦ elim (Bool-cases (c == 13 && starts_lf s)) [
    | inl crlf ↦
        let (e, e') = some_pair [] (drop_one s) l r (sym (next_line_crlf c s no_lf crlf) ∙ h) in
        let small = length-drop_one s in rw (sym e') (omega arith)
    | inr more ↦
        let (l', e, e') =
          cons_line-some c (next_line s) l r (sym (next_line_more c s no_lf more) ∙ h) in
        let small = next_line_shorter s l' r e in omega arith
  ]
]
