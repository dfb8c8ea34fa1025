-- ===== src/Encoding/Pairs.antt =====
-- utils/sms-encoding.js: the size of each part of `splitUcs2`, and its surrogate pairs.
use modem_sms_gateway.Prelude.{
  ℕ, zero, suc, ◌+◌, ◌-◌, ◌≤◌, ◌<◌, ◌≡◌, refl, sym, ap, ap₂, ◌∙◌, inl, inr, Bool, true, false, ◌&&◌,
  List, [], ◌∷◌, ◌++◌, append-nil, append_assoc, arith, Str, min, length, get_elem?, slice, take,
  drop, drop-drop, length-take, length-drop, ltb, if◌then◌else◌, or_else, Bool-cases, All,
  All-append,
}
use modem_sms_gateway.Encoding.Charset.{is_high_surrogate, is_low_surrogate, chars}
use modem_sms_gateway.Encoding.Split.{char_code_at, ucs2_end, split_ucs2_from, split_ucs2}
use modem_sms_gateway.Encoding.Parts.{ucs2_end_bounds, drop_all, drop-slice}

-- Whether a surrogate pair lies across the border of two pieces.
abbrev pub straddles : Str → Str → Bool
straddles [] t = false
straddles (u ∷ []) t = is_high_surrogate u && is_low_surrogate (or_else (get_elem? t 0) 0)
straddles (u ∷ v ∷ s) t = straddles (v ∷ s) t

-- Both pieces are iterated as in the whole when no pair lies across their border.
pub chars-append : (s t : Str) → straddles s t ≡ false → chars (s ++ t) ≡ chars s ++ chars t
unfolding chars
chars-append [] t h = refl
chars-append (u ∷ []) [] h = refl
chars-append (u ∷ []) (v ∷ t) h = ground arith
chars-append (u ∷ v ∷ []) t h = ground (arith, chars-append [] t, chars-append (v ∷ []) t)
chars-append (u ∷ v ∷ w ∷ s) t h =
    ground (arith, chars-append (w ∷ s) t, chars-append (v ∷ w ∷ s) t)

straddles-take :
    (k : ℕ) (s : Str)
    → k < length s
    → straddles (take (suc k) s) (drop (suc k) s)
      ≡ (is_high_surrogate (char_code_at s k) && is_low_surrogate (char_code_at s (suc k)))
straddles-take zero [] h = absurd (omega arith)
straddles-take zero (u ∷ []) h = refl
straddles-take zero (u ∷ v ∷ s) h = refl
straddles-take (suc k) [] h = absurd (omega arith)
straddles-take (suc k) (u ∷ []) h = absurd (omega arith)
straddles-take (suc k) (u ∷ v ∷ s) h = straddles-take k (v ∷ s) (omega arith)

get_elem?-drop : (i k : ℕ) (s : Str) → get_elem? (drop i s) k ≡ get_elem? s (i + k)
get_elem?-drop zero k s = let e : k ≡ zero + k = omega arith in ap (get_elem? s) e
get_elem?-drop (suc i) k [] = refl
get_elem?-drop (suc i) k (u ∷ s) =
    let e : suc i + k ≡ suc (i + k) = omega arith in rw e (get_elem?-drop i k s)

get_elem?-past : (s : Str) (i : ℕ) → length s ≤ i → char_code_at s i ≡ 0
get_elem?-past [] i h = refl
get_elem?-past (u ∷ s) zero h = absurd (omega arith)
get_elem?-past (u ∷ s) (suc i) h = get_elem?-past s i (omega arith)

high_not_low : (u : ℕ) → is_high_surrogate u ≡ true → is_low_surrogate u ≡ false
high_not_low u h = ground arith

-- The cut at `end`, moved back by one when it would follow a high surrogate.
cut : ℕ → Str → ℕ
cut end message =
    if ltb end (length message) && is_high_surrogate (char_code_at message (end - 1))
    then end - 1
    else end

cut_keeps :
    (end : ℕ) (message : Str)
    → end ≤ length message
    → (is_high_surrogate (char_code_at message (cut end message - 1))
        && is_low_surrogate (char_code_at message (cut end message)))
      ≡ false
unfolding cut
cut_keeps end message h = elim (Bool-cases (ltb end (length message))) [
  | inl inside ↦ elim (Bool-cases (is_high_surrogate (char_code_at message (end - 1)))) [
    | inl high ↦ rw (inside, high, high_not_low (char_code_at message (end - 1)) high) (and_false _)
    | inr low ↦ rw (inside, low) (rw low refl)
  ]
  | inr past ↦
      let e : length message ≤ end = ground arith in
      rw (past, get_elem?-past message end e) (and_false _)
]
  where
    and_false : (b : Bool) → (b && false) ≡ false
    and_false true = refl
    and_false false = refl

-- `splitUcs2` cuts between a high surrogate and a low one at no place.
ucs2_end_keeps :
    (message : Str) (i : ℕ)
    → (is_high_surrogate (char_code_at message (ucs2_end message i - 1))
        && is_low_surrogate (char_code_at message (ucs2_end message i)))
      ≡ false
unfolding ucs2_end cut
ucs2_end_keeps message i = cut_keeps (min (i + 67) (length message)) message (omega arith)

straddles-slice :
    (i j : ℕ) (s : Str)
    → i < j
    → j ≤ length s
    → straddles (slice i j s) (drop j s)
      ≡ (is_high_surrogate (char_code_at s (j - 1)) && is_low_surrogate (char_code_at s j))
straddles-slice i j s h k =
    let n = j - i - 1 in
    let e : suc n ≡ j - i = omega arith in
    let e1 : i + suc n ≡ j = omega arith in
    let e2 : i + n ≡ j - 1 = omega arith in
    let d : drop (suc n) (drop i s) ≡ drop j s = drop-drop i (suc n) s ∙ ap (λ t. drop t s) e1 in
    let a : char_code_at (drop i s) n ≡ char_code_at s (j - 1) =
      ap (λ t. or_else t 0) (get_elem?-drop i n s ∙ ap (get_elem? s) e2) in
    let b : char_code_at (drop i s) (suc n) ≡ char_code_at s j =
      ap (λ t. or_else t 0) (get_elem?-drop i (suc n) s ∙ ap (get_elem? s) e1) in
    ap₂ straddles (ap (λ t. take t (drop i s)) (sym e)) (sym d)
    ∙ straddles-take n (drop i s) (omega (arith, length-drop i s))
    ∙ ap₂ (λ x y. is_high_surrogate x && is_low_surrogate y) a b

-- The characters of each part, one part after the other.
abbrev pub chars_of_parts : List Str → List Str
chars_of_parts [] = []
chars_of_parts (p ∷ ps) = chars p ++ chars_of_parts ps

chars_of_parts-snoc :
    (ps : List Str) (p : Str) → chars_of_parts (ps ++ p ∷ []) ≡ chars_of_parts ps ++ chars p
chars_of_parts-snoc [] p = append-nil (chars p)
chars_of_parts-snoc (q ∷ ps) p = simp (chars_of_parts-snoc ps p, append_assoc)

chars-split_ucs2_from :
    (fuel : ℕ) (message : Str) (i : ℕ) (parts : List Str)
    → length message - i ≤ fuel
    → chars_of_parts (split_ucs2_from fuel message i parts)
      ≡ chars_of_parts parts ++ chars (drop i message)
unfolding split_ucs2_from chars
chars-split_ucs2_from zero message i parts h =
    rw (drop_all i message (omega arith)) (sym (append-nil (chars_of_parts parts)))
chars-split_ucs2_from (suc fuel) message i parts h = elim (Bool-cases (ltb i (length message))) [
  | inl inside ↦
      let b = ucs2_end_bounds message i (ground arith) in
      let end = ucs2_end message i in
      let part = slice i end message in
      let border : straddles part (drop end message) ≡ false =
        straddles-slice i end message b.0 b.1 ∙ ucs2_end_keeps message i in
      rw inside (
        chars-split_ucs2_from fuel message end (parts ++ part ∷ []) (omega arith)
        ∙ rw (chars_of_parts-snoc parts part) (
            append_assoc (chars_of_parts parts) (chars part) (chars (drop end message))
            ∙ ap (λ t. chars_of_parts parts ++ t)
                (sym (chars-append part (drop end message) border)
                  ∙ ap chars (drop-slice i end message (omega arith)))))
  | inr past ↦
      rw (past, drop_all i message (ground arith)) (sym (append-nil (chars_of_parts parts)))
]

abbrev pub FitsUcs2 : Str → Type 0
FitsUcs2 part = (1 ≤ length part) × (length part ≤ 67)

split_ucs2_from-FitsUcs2 :
    (fuel : ℕ) (message : Str) (i : ℕ) (parts : List Str)
    → All FitsUcs2 parts
    → All FitsUcs2 (split_ucs2_from fuel message i parts)
unfolding split_ucs2_from
split_ucs2_from-FitsUcs2 zero message i parts h = h
split_ucs2_from-FitsUcs2 (suc fuel) message i parts h = elim (Bool-cases (ltb i (length message))) [
  | inl inside ↦
      let b = ucs2_end_bounds message i (ground arith) in
      let end = ucs2_end message i in
      let fits : FitsUcs2 (slice i end message) =
        omega (arith, length-take (end - i) (drop i message), length-drop i message) in
      rw inside (
        split_ucs2_from-FitsUcs2 fuel message end (parts ++ slice i end message ∷ [])
          (All-append FitsUcs2 parts (slice i end message ∷ []) h (fits, tt)))
  | inr past ↦ rw past h
]

-- A message split for UCS2: every part holds 1 to 67 code units, and iterating the parts one after
-- the other visits exactly the characters of the message, so no surrogate pair is split.
pub split_ucs2-FitsUcs2 :
    (message : Str)
    → All FitsUcs2 (split_ucs2 message) × (chars_of_parts (split_ucs2 message) ≡ chars message)
unfolding split_ucs2
split_ucs2-FitsUcs2 message = (
  split_ucs2_from-FitsUcs2 (length message) message 0 [] tt,
  chars-split_ucs2_from (length message) message 0 [] (omega arith),
)
