-- ===== src/Encoding/Split.antt =====
-- utils/sms-encoding.js: how a message is counted and split into the parts of a concatenated SMS.
use modem_sms_gateway.Prelude.{
  ℕ, zero, suc, ◌+◌, ◌-◌, ◌*◌, min, Bool, ◌&&◌, List, [], ◌∷◌, ◌++◌, Option, none, some, Str,
  length, get_elem?, slice, ltb, leb, ◌==◌, if◌then◌else◌, or_else,
}
use modem_sms_gateway.Encoding.Charset.{
  gsm7_single, gsm7_per_segment, ucs2_single, ucs2_per_segment, max_segments, is_high_surrogate,
  gsm7_cost, chars,
}

pub data Encoding : Type 0 where
  gsm ucs2 : Encoding

pub record Info : Type 0 where
  pub encoding : Encoding
  pub length : ℕ
  pub segments : ℕ
  pub max_length : ℕ
  pub ok : Bool

-- `if (part) parts.push(part)`.
unfoldable pub push_part : List Str → Str → List Str
push_part parts [] = parts
push_part parts (u ∷ s) = parts ++ (u ∷ s) ∷ []

-- The loop of `splitGsm7` over the characters left, with its `parts`, `part` and `septets`. A cost
-- that is `null` adds 0.
unfoldable pub split_gsm7_from : List Str → List Str → Str → ℕ → List Str
unfolding push_part
split_gsm7_from [] parts part septets = push_part parts part
split_gsm7_from (ch ∷ rest) parts part septets =
    let cost = or_else (gsm7_cost ch) 0 in
    let full = ltb gsm7_per_segment (septets + cost) in
    split_gsm7_from rest (if full then parts ++ part ∷ [] else parts)
      ((if full then [] else part) ++ ch) ((if full then 0 else septets) + cost)

unfoldable pub split_gsm7 : Str → List Str
unfolding split_gsm7_from
split_gsm7 message = split_gsm7_from (chars message) [] [] 0

-- `message.charCodeAt(i)` inside the string.
abbrev pub char_code_at : Str → ℕ → ℕ
char_code_at message i = or_else (get_elem? message i) 0

-- Where the part that begins at `i` ends.
unfoldable pub ucs2_end : Str → ℕ → ℕ
ucs2_end message i =
    let end = min (i + ucs2_per_segment) (length message) in
    if ltb end (length message) && is_high_surrogate (char_code_at message (end - 1))
    then end - 1
    else end

-- The loop of `splitUcs2` at index `i`. Each round moves `i` on, so `length message` rounds do.
unfoldable pub split_ucs2_from : ℕ → Str → ℕ → List Str → List Str
unfolding ucs2_end
split_ucs2_from zero message i parts = parts
split_ucs2_from (suc fuel) message i parts =
    let rest =
      split_ucs2_from fuel message (ucs2_end message i)
        (parts ++ slice i (ucs2_end message i) message ∷ []) in
    if ltb i (length message) then rest else parts

unfoldable pub split_ucs2 : Str → List Str
unfolding split_ucs2_from
split_ucs2 message = split_ucs2_from (length message) message 0 []

-- The counting loop of `analyzeMessage`: `none` when a character is outside GSM-7.
unfoldable pub count_septets : List Str → ℕ → Option ℕ
count_septets [] septets = some septets
count_septets (ch ∷ rest) septets = elim (gsm7_cost ch) [
  | none ↦ none
  | some cost ↦ count_septets rest (septets + cost)
]

unfoldable pub gsm_info : Str → ℕ → Info
gsm_info message septets =
    let segments = if leb septets gsm7_single then 1 else length (split_gsm7 message) in
    record {
      encoding = gsm;
      length = septets;
      segments = segments;
      max_length = gsm7_per_segment * max_segments;
      ok = leb segments max_segments;
    }

unfoldable pub ucs2_info : Str → Info
ucs2_info message =
    let segments = if leb (length message) ucs2_single then 1 else length (split_ucs2 message) in
    record {
      encoding = ucs2;
      length = length message;
      segments = segments;
      max_length = ucs2_per_segment * max_segments;
      ok = leb segments max_segments;
    }

unfoldable pub choose_info : Option ℕ → Str → Info
choose_info (some septets) message = gsm_info message septets
choose_info none message = ucs2_info message

unfoldable pub analyze_message : Str → Info
unfolding gsm_info ucs2_info choose_info
analyze_message message = choose_info (count_septets (chars message) 0) message

unfoldable pub split_as : Encoding → Str → List Str
split_as gsm message = split_gsm7 message
split_as ucs2 message = split_ucs2 message

unfoldable pub split_message : Str → List Str
unfolding split_as
split_message message =
    let info = analyze_message message in
    if info.segments == 1 then message ∷ [] else split_as info.encoding message
