-- ===== src/Encoding/Capacity.antt =====
-- utils/sms-encoding.js: the septets in each part of `splitGsm7`.
use modem_sms_gateway.Prelude.{
  ℕ, ◌+◌, ◌≤◌, ◌<◌, ◌≡◌, refl, sym, ap, ◌∙◌, inl, inr, true, false, List, [], ◌∷◌, ◌++◌, none, some,
  arith, Str, length, ltb, Bool-cases, Option-cases, All, All-append,
}
use modem_sms_gateway.Encoding.Charset.{gsm7_cost, chars}
use modem_sms_gateway.Encoding.Split.{push_part, split_gsm7_from, split_gsm7, count_septets}
use modem_sms_gateway.Encoding.Septets.{gsm7_cost-some}
use modem_sms_gateway.Encoding.Pairs.{straddles, chars-append}

-- A part that is not empty and, counted on its own, is GSM-7 text of at most 153 septets.
abbrev pub FitsGsm7 : Str → Type 0
FitsGsm7 part = (1 ≤ length part) × ((n : ℕ) × (count_septets (chars part) 0 ≡ some n) × (n ≤ 153))

count_septets-some :
    (c : Str) (cs : List Str) (n k : ℕ)
    → gsm7_cost c ≡ some k
    → count_septets (c ∷ cs) n ≡ count_septets cs (n + k)
unfolding count_septets
count_septets-some c cs n k e = rw (count_septets, e) refl

count_septets-none :
    (c : Str) (cs : List Str) (n : ℕ) → gsm7_cost c ≡ none → count_septets (c ∷ cs) n ≡ none
unfolding count_septets
count_septets-none c cs n e = rw (count_septets, e) refl

-- A count that succeeds gives the cost of the first character, and goes on behind it.
pub count_septets_uncons :
    (c : Str) (cs : List Str) (n m : ℕ)
    → count_septets (c ∷ cs) n ≡ some m
    → (k : ℕ) × (gsm7_cost c ≡ some k) × (count_septets cs (n + k) ≡ some m)
count_septets_uncons c cs n m h = elim (Option-cases (gsm7_cost c)) [
  | inl e ↦ absurd (cc (count_septets-none c cs n e))
  | inr (k, e) ↦ (k, e, sym (count_septets-some c cs n k e) ∙ h)
]

pub count_septets-nil : (n m : ℕ) → count_septets [] n ≡ some m → n ≡ m
unfolding count_septets
count_septets-nil n m h = ground arith

count_septets-append :
    (cs ds : List Str) (n m : ℕ)
    → count_septets cs n ≡ some m
    → count_septets (cs ++ ds) n ≡ count_septets ds m
count_septets-append [] ds n m h = ap (count_septets ds) (count_septets-nil n m h)
count_septets-append (c ∷ cs) ds n m h =
    let (k, e, rest) = count_septets_uncons c cs n m h in
    count_septets-some c (cs ++ ds) n k e ∙ count_septets-append cs ds (n + k) m rest

straddles-basic : (part : Str) (u : ℕ) → ltb u 0xd800 ≡ true → straddles part (u ∷ []) ≡ false
straddles-basic [] u h = refl
straddles-basic (v ∷ []) u h = ground arith
straddles-basic (v ∷ w ∷ s) u h = straddles-basic (w ∷ s) u h

-- A character of the set behind a piece of text is counted on its own.
pub count_septets-snoc :
    (part ch : Str) (n k : ℕ)
    → count_septets (chars part) 0 ≡ some n
    → gsm7_cost ch ≡ some k
    → count_septets (chars (part ++ ch)) 0 ≡ some (n + k)
unfolding chars
count_septets-snoc part [] n k h e = absurd (cc (gsm7_cost-some [] k e).0)
count_septets-snoc part (u ∷ []) n k h e =
    let border : straddles part (u ∷ []) ≡ false =
      straddles-basic part u (gsm7_cost-some (u ∷ []) k e).0 in
    rw (chars-append part (u ∷ []) border) (
      count_septets-append (chars part) ((u ∷ []) ∷ []) 0 n h
      ∙ count_septets-some (u ∷ []) [] n k e
      ∙ unfold count_septets in refl)
count_septets-snoc part (u ∷ v ∷ s) n k h e = absurd (cc (gsm7_cost-some (u ∷ v ∷ s) k e).0)

-- A part that would overflow is not empty.
full_part :
    (part : Str) (n k : ℕ)
    → count_septets (chars part) 0 ≡ some n
    → k ≤ 2
    → 153 < n + k
    → 1 ≤ length part
unfolding chars
full_part [] n k h le full = absurd (omega (arith, count_septets-nil 0 n h))
full_part (u ∷ s) n k h le full = omega arith

AllFit-push_part :
    (parts : List Str) (part : Str)
    → All FitsGsm7 parts
    → (n : ℕ) → count_septets (chars part) 0 ≡ some n
    → n ≤ 153
    → All FitsGsm7 (push_part parts part)
unfolding push_part
AllFit-push_part parts [] hs n h le = hs
AllFit-push_part parts (u ∷ s) hs n h le =
    All-append FitsGsm7 parts ((u ∷ s) ∷ []) hs ((omega arith, (n, h, le)), tt)

-- The loop keeps a part that fits, and pushes it before it would overflow.
split_gsm7_from-FitsGsm7 :
    (cs parts : List Str) (part : Str) (n total m : ℕ)
    → All FitsGsm7 parts
    → count_septets (chars part) 0 ≡ some n
    → n ≤ 153
    → count_septets cs m ≡ some total
    → All FitsGsm7 (split_gsm7_from cs parts part n)
unfolding split_gsm7_from
split_gsm7_from-FitsGsm7 [] parts part n total m hs h le t = AllFit-push_part parts part hs n h le
split_gsm7_from-FitsGsm7 (ch ∷ cs) parts part n total m hs h le t =
    let (k, e, rest) = count_septets_uncons ch cs m total t in
    let (single, low, high) = gsm7_cost-some ch k e in
    elim (Bool-cases (ltb 153 (n + k))) [
      | inl full ↦
          let fits : FitsGsm7 part = (full_part part n k h high (ground arith), (n, h, le)) in
          rw (e, full)
            (split_gsm7_from-FitsGsm7 cs (parts ++ part ∷ []) ch (0 + k) total (m + k)
              (All-append FitsGsm7 parts (part ∷ []) hs (fits, tt))
              (count_septets-snoc [] ch 0 k (unfold count_septets chars in refl) e) (omega arith)
              rest)
      | inr room ↦
          rw (e, room)
            (split_gsm7_from-FitsGsm7 cs parts (part ++ ch) (n + k) total (m + k) hs
              (count_septets-snoc part ch n k h e) (ground arith) rest)
    ]

-- A GSM-7 message split for concatenation: every part is a non-empty GSM-7 text that fits the 153
-- septets which the concatenation header leaves.
pub split_gsm7-FitsGsm7 :
    (message : Str) (septets : ℕ)
    → count_septets (chars message) 0 ≡ some septets
    → All FitsGsm7 (split_gsm7 message)
unfolding split_gsm7
split_gsm7-FitsGsm7 message septets h =
    split_gsm7_from-FitsGsm7 (chars message) [] [] 0 septets 0 tt
      (unfold count_septets chars in refl) (omega arith) h
