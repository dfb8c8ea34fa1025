-- ===== src/Encoding/Message.antt =====
-- utils/sms-encoding.js: `analyzeMessage` beside `splitMessage`.
use modem_sms_gateway.Prelude.{
  ℕ, ◌+◌, ◌*◌, ◌≤◌, ◌≡◌, refl, ap, ◌⊎◌, inl, inr, true, false, List, [], ◌∷◌, ◌++◌, append-nil,
  Option, none, some, arith, Str, length, length-append, concat, ltb, ◌==◌, Bool-cases, All,
}
use modem_sms_gateway.Encoding.Charset.{chars}
use modem_sms_gateway.Encoding.Split.{
  Encoding, gsm, ucs2, push_part, split_gsm7_from, split_gsm7, split_ucs2, count_septets, gsm_info,
  ucs2_info, choose_info, analyze_message, split_as, split_message,
}
use modem_sms_gateway.Encoding.Septets.{gsm7_cost-some}
use modem_sms_gateway.Encoding.Parts.{concat-split_gsm7, concat-split_ucs2}
use modem_sms_gateway.Encoding.Pairs.{FitsUcs2, chars_of_parts, split_ucs2-FitsUcs2}
use modem_sms_gateway.Encoding.Capacity.{
  FitsGsm7, split_gsm7-FitsGsm7, count_septets_uncons, count_septets-nil, count_septets-snoc,
}

concat-split_as : (e : Encoding) (message : Str) → concat (split_as e message) ≡ message
unfolding split_as
concat-split_as gsm message = concat-split_gsm7 message
concat-split_as ucs2 message = concat-split_ucs2 message

pub concat-split_message : (message : Str) → concat (split_message message) ≡ message
unfolding split_message
concat-split_message message = elim (Bool-cases ((analyze_message message).segments == 1)) [
  | inl one ↦ rw one (append-nil message)
  | inr more ↦ rw more (concat-split_as (analyze_message message).encoding message)
]

-- The branch that `analyzeMessage` took gives the parts that it counted.
segments_lem :
    (o : Option ℕ) (message : Str)
    → ((choose_info o message).segments == 1) ≡ false
    → length (split_as (choose_info o message).encoding message) ≡ (choose_info o message).segments
unfolding choose_info gsm_info ucs2_info split_as
segments_lem none message h = ground arith
segments_lem (some septets) message h = ground arith

length-split_message :
    (message : Str) → length (split_message message) ≡ (analyze_message message).segments
unfolding split_message analyze_message
length-split_message message =
    elim (Bool-cases ((choose_info (count_septets (chars message) 0) message).segments == 1)) [
      | inl one ↦ rw one (ground arith)
      | inr more ↦ rw more (segments_lem (count_septets (chars message) 0) message more)
    ]

length-concat-le :
    (parts : List Str) → All FitsUcs2 parts → length (concat parts) ≤ 67 * length parts
length-concat-le [] h = omega arith
length-concat-le (p ∷ ps) h = omega (arith, length-append p (concat ps), length-concat-le ps h.1)

length-split_ucs2 : (message : Str) → length message ≤ 67 * length (split_ucs2 message)
length-split_ucs2 message = omega (
  arith,
  ap length (concat-split_ucs2 message),
  length-concat-le (split_ucs2 message) (split_ucs2-FitsUcs2 message).0,
)

length-push_part :
    (parts : List Str) (part : Str) (n : ℕ)
    → count_septets (chars part) 0 ≡ some n
    → n ≤ 153
    → 153 * length parts + n ≤ 153 * length (push_part parts part)
unfolding push_part chars
length-push_part parts [] n h le = omega (arith, count_septets-nil 0 n h)
length-push_part parts (u ∷ s) n h le = omega (arith, length-append parts ((u ∷ s) ∷ []))

-- Every part takes in at most 153 septets, so many septets need many parts.
length-split_gsm7_from :
    (cs parts : List Str) (part : Str) (n total m : ℕ)
    → count_septets (chars part) 0 ≡ some n
    → n ≤ 153
    → count_septets cs m ≡ some total
    → 153 * length parts + n + total ≤ 153 * length (split_gsm7_from cs parts part n) + m
unfolding split_gsm7_from
length-split_gsm7_from [] parts part n total m h le t =
    omega (arith, count_septets-nil m total t, length-push_part parts part n h le)
length-split_gsm7_from (ch ∷ cs) parts part n total m h le t =
    let (k, e, rest) = count_septets_uncons ch cs m total t in
    let (single, low, high) = gsm7_cost-some ch k e in
    elim (Bool-cases (ltb 153 (n + k))) [
      | inl full ↦
          rw (e, full)
            (omega (
              arith,
              length-append parts (part ∷ []),
              length-split_gsm7_from cs (parts ++ part ∷ []) ch (0 + k) total (m + k)
                  (count_septets-snoc [] ch 0 k (unfold count_septets chars in refl) e)
                  (omega arith) rest,
            ))
      | inr room ↦
          rw (e, room)
            (omega (
              arith,
              length-split_gsm7_from cs parts (part ++ ch) (n + k) total (m + k)
                  (count_septets-snoc part ch n k h e) (ground arith) rest,
            ))
    ]

length-split_gsm7 :
    (message : Str) (septets : ℕ)
    → count_septets (chars message) 0 ≡ some septets
    → septets ≤ 153 * length (split_gsm7 message)
unfolding split_gsm7
length-split_gsm7 message septets h = omega (
  arith,
  length-split_gsm7_from (chars message) [] [] 0 septets 0 (unfold count_septets chars in refl)
      (omega arith) h,
)

info-max_length :
    (o : Option ℕ) (message : Str)
    → count_septets (chars message) 0 ≡ o
    → (choose_info o message).ok ≡ true
    → (choose_info o message).length ≤ (choose_info o message).max_length
unfolding choose_info gsm_info ucs2_info
info-max_length none message e h = ground (arith, length-split_ucs2 message)
info-max_length (some septets) message e h = ground (arith, length-split_gsm7 message septets e)

analyze_message-max_length :
    (message : Str)
    → (analyze_message message).ok ≡ true
    → (analyze_message message).length ≤ (analyze_message message).max_length
unfolding analyze_message
analyze_message-max_length message h =
    info-max_length (count_septets (chars message) 0) message refl h

-- The parts of `splitMessage` joined together are the message, and there are as many of them as
-- `analyzeMessage` counted. A message that `analyzeMessage` accepts is no longer than the `maxLength`
-- that it reports.
pub split_message_lem :
    (message : Str)
    → (concat (split_message message) ≡ message)
      × (length (split_message message) ≡ (analyze_message message).segments)
      × (((analyze_message message).ok ≡ false)
          ⊎ ((analyze_message message).length ≤ (analyze_message message).max_length))
split_message_lem message = (
  concat-split_message message,
  length-split_message message,
  elim (Bool-cases (analyze_message message).ok) [
    | inl e ↦ inr (analyze_message-max_length message e)
    | inr e ↦ inl e
  ],
)

-- The parts of an encoding fit it.
abbrev pub FitsAs : Encoding → Str → List Str → Type 0
FitsAs gsm message parts = All FitsGsm7 parts
FitsAs ucs2 message parts = All FitsUcs2 parts × (chars_of_parts parts ≡ chars message)

-- A message split for concatenation in the encoding that `analyzeMessage` chooses. GSM-7: every part is
-- a non-empty GSM-7 text that fits the 153 septets which the concatenation header leaves. UCS2: every
-- part holds 1 to 67 code units, and iterating the parts one after the other visits exactly the
-- characters of the message, so no surrogate pair is split.
pub split_as-FitsAs :
    (message : Str)
    → let e = (analyze_message message).encoding in FitsAs e message (split_as e message)
unfolding analyze_message choose_info gsm_info ucs2_info split_as
split_as-FitsAs message = go (count_septets (chars message) 0) refl
  where
    go :
        (o : Option ℕ)
        → count_septets (chars message) 0 ≡ o
        → FitsAs
            (choose_info o message).encoding
            message
            (split_as (choose_info o message).encoding message)
    go none e = split_ucs2-FitsUcs2 message
    go (some n) e = split_gsm7-FitsGsm7 message n e
