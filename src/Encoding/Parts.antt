-- ===== src/Encoding/Parts.antt =====
-- utils/sms-encoding.js: the parts of the two splitters put together again.
use modem_sms_gateway.Prelude.{
  ℕ, zero, suc, ◌+◌, ◌-◌, ◌≤◌, ◌<◌, ◌≡◌, refl, sym, ap, ◌∙◌, inl, inr, Bool, true, false, List, [],
  ◌∷◌, ◌++◌, append-nil, append_assoc, arith, Str, length, concat, concat-append, slice, drop,
  take-append-drop, drop-drop, ltb, if◌then◌else◌, or_else, Bool-cases,
}
use modem_sms_gateway.Encoding.Charset.{gsm7_cost, chars, concat-chars}
use modem_sms_gateway.Encoding.Split.{
  push_part, split_gsm7_from, split_gsm7, ucs2_end, split_ucs2_from, split_ucs2,
}

concat-push_part :
    (parts : List Str) (part : Str) → concat (push_part parts part) ≡ concat parts ++ part
unfolding push_part
concat-push_part parts [] = sym (append-nil (concat parts))
concat-push_part parts (u ∷ s) = simp (concat-append parts ((u ∷ s) ∷ []), append-nil)

concat-snoc : (parts : List Str) (part : Str) → concat (parts ++ part ∷ []) ≡ concat parts ++ part
concat-snoc parts part = simp (concat-append parts (part ∷ []), append-nil)

regroup :
    (full : Bool) (parts : List Str) (part ch tail : Str)
    → concat (if full then parts ++ part ∷ [] else parts)
        ++ ((if full then [] else part) ++ ch)
        ++ tail
      ≡ concat parts ++ part ++ ch ++ tail
regroup true parts part ch tail = simp (concat-snoc, append_assoc)
regroup false parts part ch tail = simp append_assoc

concat-split_gsm7_from :
    (cs parts : List Str) (part : Str) (septets : ℕ)
    → concat (split_gsm7_from cs parts part septets) ≡ concat parts ++ part ++ concat cs
unfolding split_gsm7_from
concat-split_gsm7_from [] parts part septets = simp (concat-push_part, append-nil)
concat-split_gsm7_from (ch ∷ cs) parts part septets =
    let cost = or_else (gsm7_cost ch) 0 in
    let full = ltb 153 (septets + cost) in
    concat-split_gsm7_from cs (if full then parts ++ part ∷ [] else parts)
      ((if full then [] else part) ++ ch) ((if full then 0 else septets) + cost)
    ∙ regroup full parts part ch (concat cs)
    ∙ append_assoc (concat parts ++ part) ch (concat cs)

pub concat-split_gsm7 : (message : Str) → concat (split_gsm7 message) ≡ message
unfolding split_gsm7
concat-split_gsm7 message = concat-split_gsm7_from (chars message) [] [] 0 ∙ concat-chars message

pub ucs2_end_bounds :
    (message : Str) (i : ℕ)
    → i < length message
    → (i < ucs2_end message i)
      × (ucs2_end message i ≤ length message)
      × (ucs2_end message i ≤ i + 67)
unfolding ucs2_end
ucs2_end_bounds message i h = ground arith

pub drop-slice :
    (i j : ℕ) (message : Str) → i ≤ j → slice i j message ++ drop j message ≡ drop i message
drop-slice i j message h =
    let e : i + (j - i) ≡ j = omega arith in
    let d : drop (j - i) (drop i message) ≡ drop j message =
      drop-drop i (j - i) message ∙ ap (λ t. drop t message) e in
    rw (← d) (take-append-drop (j - i) (drop i message))

pub drop_all : (n : ℕ) (s : Str) → length s ≤ n → drop n s ≡ []
drop_all zero [] h = refl
drop_all zero (c ∷ s) h = absurd (omega arith)
drop_all (suc n) [] h = refl
drop_all (suc n) (c ∷ s) h = drop_all n s (omega arith)

concat-split_ucs2_from :
    (fuel : ℕ) (message : Str) (i : ℕ) (parts : List Str)
    → length message - i ≤ fuel
    → concat (split_ucs2_from fuel message i parts) ≡ concat parts ++ drop i message
unfolding split_ucs2_from
concat-split_ucs2_from zero message i parts h =
    rw (drop_all i message (omega arith)) (sym (append-nil (concat parts)))
concat-split_ucs2_from (suc fuel) message i parts h = elim (Bool-cases (ltb i (length message))) [
  | inl inside ↦
      let b = ucs2_end_bounds message i (ground arith) in
      let end = ucs2_end message i in
      rw inside (
        concat-split_ucs2_from fuel message end (parts ++ slice i end message ∷ []) (omega arith)
        ∙ rw (concat-snoc parts (slice i end message)) (
            append_assoc (concat parts) (slice i end message) (drop end message)
            ∙ ap (λ t. concat parts ++ t) (drop-slice i end message (omega arith))))
  | inr past ↦ rw (past, drop_all i message (ground arith)) (sym (append-nil (concat parts)))
]

pub concat-split_ucs2 : (message : Str) → concat (split_ucs2 message) ≡ message
unfolding split_ucs2
concat-split_ucs2 message = concat-split_ucs2_from (length message) message 0 [] (omega arith)
