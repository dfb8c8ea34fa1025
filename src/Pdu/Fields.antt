-- ===== src/Pdu/Fields.antt =====
-- utils/pdu.js: the fields of a PDU as octets.

use modem_sms_gateway.Prelude.{
  ℕ, zero, suc, ◌+◌, ◌-◌, ◌*◌, ◌/◌, ◌%◌, ◌≤◌, ◌<◌, ◌≡◌, refl, sym, ap, ap₂, ◌∙◌, inl, inr, true,
  false, List, [], ◌∷◌, ◌++◌, arith, Str, length, ltb, ◌==◌, Bool-cases, All,
}
use modem_sms_gateway.Encoding.Charset.{is_digit, all_digits, digits_7_15, phone_re}
use modem_sms_gateway.Encoding.Hex.{hex_digit, byte_hex, bytes_hex}
use modem_sms_gateway.Pdu.Address.{hex_text, pad_two, hex, swap_pairs, raw_digits, encode_address}
use modem_sms_gateway.Pdu.Build.{join_hex}
use modem_sms_gateway.Pdu.Reader.{read_digits, read_number}

hex_text_small : (fuel n : ℕ) → n < 16 → hex_text fuel n ≡ hex_digit n ∷ []
unfolding hex_text
hex_text_small zero n h = refl
hex_text_small (suc fuel) n h =
    let small : ltb n 16 ≡ true = ground arith in rw (hex_text, small) refl

hex_text_large :
    (fuel n : ℕ)
    → 16 ≤ n
    → n < 256
    → hex_text (suc fuel) n ≡ hex_digit (n / 16) ∷ hex_digit (n % 16) ∷ []
unfolding hex_text
hex_text_large fuel n lo hi =
    let large : ltb n 16 ≡ false = ground arith in
    rw (hex_text, large)
      (ap (λ t. t ++ hex_digit (n % 16) ∷ []) (hex_text_small fuel (n / 16) (omega arith)))

-- A number below 256 is written as the two digits of a byte.
pub hex-byte_hex : (n : ℕ) → n < 256 → hex n ≡ byte_hex n
unfolding hex byte_hex
hex-byte_hex n h = elim (Bool-cases (ltb n 16)) [
  | inl small ↦
      let high : n / 16 ≡ 0 = ground arith in
      let low : n % 16 ≡ n = ground arith in rw (hex_text_small n n (ground arith), high, low) refl
  | inr large ↦
      let one_more : n ≡ suc (n - 1) = ground arith in
      ap pad_two (ap (λ t. hex_text t n) one_more ∙ hex_text_large (n - 1) n (ground arith) h)
]

pub join_hex-bytes_hex : (bs : List ℕ) → All (λ b. b < 256) bs → join_hex bs ≡ bytes_hex bs
unfolding join_hex bytes_hex
join_hex-bytes_hex [] h = refl
join_hex-bytes_hex (b ∷ bs) h = rw (hex-byte_hex b h.0, join_hex-bytes_hex bs h.1) refl

pub bytes_hex-append : (xs ys : List ℕ) → bytes_hex (xs ++ ys) ≡ bytes_hex xs ++ bytes_hex ys
unfolding bytes_hex
bytes_hex-append [] ys = refl
bytes_hex-append (x ∷ xs) ys = rw (bytes_hex-append xs ys) refl

-- Two digits to an octet, the first one low; `F` fills the last octet of an odd number.
unfoldable pub semi_octets : Str → List ℕ
semi_octets [] = []
semi_octets (a ∷ []) = (15 * 16 + (a - b'0')) ∷ []
semi_octets (a ∷ b ∷ s) = ((b - b'0') * 16 + (a - b'0')) ∷ semi_octets s

digit_range : (a : ℕ) → is_digit a ≡ true → (b'0' ≤ a) × (a ≤ b'9')
unfolding is_digit
digit_range a h = ground arith

hex_digit-digit : (a : ℕ) → b'0' ≤ a → a ≤ b'9' → hex_digit (a - b'0') ≡ a
unfolding hex_digit
hex_digit-digit a lo hi = ground arith

octet_lem :
    (hi lo : ℕ) → hi < 16 → lo < 16 → byte_hex (hi * 16 + lo) ≡ hex_digit hi ∷ hex_digit lo ∷ []
unfolding byte_hex
octet_lem hi lo h k =
    let a : (hi * 16 + lo) / 16 ≡ hi = omega arith in
    let b : (hi * 16 + lo) % 16 ≡ lo = omega arith in rw (a, b) refl

fill_digit : hex_digit 15 ≡ b'F'
unfolding hex_digit
fill_digit = refl

all_digits_uncons :
    (a : ℕ) (s : Str) → all_digits (a ∷ s) ≡ true → (b'0' ≤ a) × (a ≤ b'9') × (all_digits s ≡ true)
unfolding all_digits
all_digits_uncons a s h = ground (arith, digit_range a)

-- The swapped digits are the text of the semi-octets.
pub swap_pairs-bytes_hex :
    (s : Str)
    → all_digits s ≡ true
    → (swap_pairs s ≡ bytes_hex (semi_octets s)) × All (λ b. b < 256) (semi_octets s)
unfolding swap_pairs bytes_hex semi_octets
swap_pairs-bytes_hex [] h = (refl, tt)
swap_pairs-bytes_hex (a ∷ []) h =
    let (lo, hi, _) = all_digits_uncons a [] h in
    let e : byte_hex (15 * 16 + (a - b'0')) ≡ b'F' ∷ a ∷ [] =
      octet_lem 15 (a - b'0') (omega arith) (omega arith)
      ∙ ap₂ (λ x y. x ∷ y ∷ []) fill_digit (hex_digit-digit a lo hi) in
    (sym (ap (λ t. t ++ []) e), (omega arith, tt))
swap_pairs-bytes_hex (a ∷ b ∷ s) h =
    let (lo, hi, t) = all_digits_uncons a (b ∷ s) h in
    let (lo', hi', rest) = all_digits_uncons b s t in
    let ih = swap_pairs-bytes_hex s rest in
    let e : byte_hex ((b - b'0') * 16 + (a - b'0')) ≡ b ∷ a ∷ [] =
      octet_lem (b - b'0') (a - b'0') (omega arith) (omega arith)
      ∙ ap₂ (λ x y. x ∷ y ∷ []) (hex_digit-digit b lo' hi') (hex_digit-digit a lo hi) in
    (ap₂ ◌++◌ (sym e) ih.0, (omega arith, ih.1))

pub length-semi_octets : (s : Str) → length (semi_octets s) ≡ (length s + 1) / 2
unfolding semi_octets
length-semi_octets [] = omega arith
length-semi_octets (a ∷ []) = omega arith
length-semi_octets (a ∷ b ∷ s) = omega (arith, length-semi_octets s)

length-swap_pairs : (s : Str) → length (swap_pairs s) ≡ 2 * ((length s + 1) / 2)
unfolding swap_pairs
length-swap_pairs [] = omega arith
length-swap_pairs (a ∷ []) = omega arith
length-swap_pairs (a ∷ b ∷ s) = omega (arith, length-swap_pairs s)

read_digits-semi_octets :
    (s : Str) → all_digits s ≡ true → read_digits (length s) (semi_octets s) ≡ s
unfolding read_digits semi_octets
read_digits-semi_octets [] h = refl
read_digits-semi_octets (a ∷ []) h =
    let (lo, hi, _) = all_digits_uncons a [] h in ap (λ t. t ∷ []) (omega arith)
read_digits-semi_octets (a ∷ b ∷ s) h =
    let (lo, hi, t) = all_digits_uncons a (b ∷ s) h in
    let (lo', hi', rest) = all_digits_uncons b s t in
    ap₂ (λ x y. x ∷ y) (omega arith)
      (ap₂ (λ x y. x ∷ y) (omega arith) (read_digits-semi_octets s rest))

-- What `PHONE_RE` says of the digits behind an optional `+`.
pub phone_re-raw_digits :
    (number : Str)
    → phone_re number ≡ true
    → (all_digits (raw_digits number) ≡ true)
      × (7 ≤ length (raw_digits number))
      × (length (raw_digits number) ≤ 15)
unfolding phone_re digits_7_15
phone_re-raw_digits [] h = cc
phone_re-raw_digits (c ∷ s) h = ground arith

-- A receiver reads the number back from its type, its count of digits and its semi-octets.
pub read_number-encode_address :
    (number : Str)
    → phone_re number ≡ true
    → let a = encode_address number in
      read_number a.toa a.digit_count (semi_octets (raw_digits number)) ≡ number
unfolding read_number encode_address
read_number-encode_address [] h = absurd (unfold phone_re in cc)
read_number-encode_address (c ∷ s) h = elim (Bool-cases (c == b'+')) [
  | inl plus ↦
      let e : c ≡ b'+' = ground arith in
      let d : all_digits s ≡ true = ground (arith, phone_re-raw_digits (c ∷ s) h) in
      rw plus (ap₂ (λ x y. x ∷ y) (sym e) (read_digits-semi_octets s d))
  | inr national ↦
      let d : all_digits (c ∷ s) ≡ true = ground (arith, phone_re-raw_digits (c ∷ s) h) in
      rw national (read_digits-semi_octets (c ∷ s) d)
]
