-- ===== src/Encoding/Hex/RoundTrip.antt =====
-- utils/sms-encoding.js: `ucs2Hex` and `ucs2Decode`, one after the other.
use modem_sms_gateway.Prelude.{
  ℕ, ◌+◌, ◌-◌, ◌*◌, ◌/◌, ◌%◌, ◌<◌, ◌≡◌, refl, ap, ap₂, ◌∙◌, Bool, true, false, ◌&&◌, List, [], ◌∷◌,
  arith, Str, length, leb, ◌==◌, if◌then◌else◌, All,
}
use modem_sms_gateway.Encoding.Hex.{
  hex_digit, bytes_hex, utf16_be, ucs2_hex, is_hex, all_hex, hex_value, hex_bytes, units_be,
  ucs2_decode,
}

is_hex-hex_digit : (d : ℕ) → d < 16 → is_hex (hex_digit d) ≡ true
unfolding is_hex hex_digit
is_hex-hex_digit d h = ground arith

hex_value-hex_digit : (d : ℕ) → d < 16 → hex_value (hex_digit d) ≡ d
unfolding hex_value hex_digit
hex_value-hex_digit d h = ground arith

abbrev pub IsByte : ℕ → Type 0
IsByte b = b < 256

-- Every code unit of a JavaScript string is below 2 ^ 16.
abbrev pub IsUnit : ℕ → Type 0
IsUnit u = u < 65536

all_hex-bytes_hex : (bs : List ℕ) → All IsByte bs → all_hex (bytes_hex bs) ≡ true
unfolding all_hex bytes_hex
all_hex-bytes_hex [] h = refl
all_hex-bytes_hex (b ∷ bs) h = rw (
  is_hex-hex_digit (b / 16) (omega arith),
  is_hex-hex_digit (b % 16) (omega arith),
  all_hex-bytes_hex bs h.1,
)

pub hex_bytes-bytes_hex : (bs : List ℕ) → All IsByte bs → hex_bytes (bytes_hex bs) ≡ bs
unfolding hex_bytes bytes_hex
hex_bytes-bytes_hex [] h = refl
hex_bytes-bytes_hex (b ∷ bs) h =
    rw
      (
        hex_value-hex_digit (b / 16) (omega arith),
        hex_value-hex_digit (b % 16) (omega arith),
        hex_bytes-bytes_hex bs h.1,
      )
      (ap (λ t. t ∷ bs) (omega arith))

pub length-bytes_hex : (bs : List ℕ) → length (bytes_hex bs) ≡ 2 * length bs
unfolding bytes_hex
length-bytes_hex [] = omega arith
length-bytes_hex (b ∷ bs) = omega (arith, length-bytes_hex bs)

pub length-utf16_be : (s : Str) → length (utf16_be s) ≡ 2 * length s
unfolding utf16_be
length-utf16_be [] = omega arith
length-utf16_be (u ∷ s) = omega (arith, length-utf16_be s)

pub utf16_be-bytes : (s : Str) → All IsUnit s → All IsByte (utf16_be s)
unfolding utf16_be
utf16_be-bytes [] h = tt
utf16_be-bytes (u ∷ s) h = (omega arith, (omega arith, utf16_be-bytes s h.1))

pub units_be-utf16_be : (s : Str) → units_be (utf16_be s) ≡ s
unfolding units_be utf16_be
units_be-utf16_be [] = refl
units_be-utf16_be (u ∷ s) = ap₂ ◌∷◌ (omega arith) (units_be-utf16_be s)

length-ucs2_hex : (s : Str) → length (ucs2_hex s) ≡ 4 * length s
unfolding ucs2_hex
length-ucs2_hex s = omega (arith, length-bytes_hex (utf16_be s), length-utf16_be s)

-- A string written as UCS2 hexadecimal takes four digits for each code unit and reads back as itself.
ucs2_decode-ucs2_hex :
    (s : Str) → All IsUnit s → (ucs2_decode (ucs2_hex s) ≡ s) × (length (ucs2_hex s) ≡ 4 * length s)
unfolding ucs2_decode
ucs2_decode-ucs2_hex [] h = (unfold ucs2_hex in refl, length-ucs2_hex [])
ucs2_decode-ucs2_hex (u ∷ s) h = (decoded, length-ucs2_hex (u ∷ s))
  where
    l : length (ucs2_hex (u ∷ s)) ≡ 4 * length (u ∷ s)
    l = length-ucs2_hex (u ∷ s)

    bytes : All IsByte (utf16_be (u ∷ s))
    bytes = utf16_be-bytes (u ∷ s) h

    nonempty : (length (ucs2_hex (u ∷ s)) == 0) ≡ false
    nonempty = ground (arith, l)

    fours : (length (ucs2_hex (u ∷ s)) % 4 == 0) ≡ true
    fours = ground (arith, l)

    digits : all_hex (ucs2_hex (u ∷ s)) ≡ true
    digits = unfold ucs2_hex in all_hex-bytes_hex (utf16_be (u ∷ s)) bytes

    units : units_be (hex_bytes (ucs2_hex (u ∷ s))) ≡ u ∷ s
    units =
        unfold ucs2_hex in
        ap units_be (hex_bytes-bytes_hex (utf16_be (u ∷ s)) bytes) ∙ units_be-utf16_be (u ∷ s)

    decoded : ucs2_decode (ucs2_hex (u ∷ s)) ≡ u ∷ s
    decoded = rw (ucs2_decode, nonempty, fours, digits) units

-- `toUpperCase` on a hexadecimal digit.
abbrev pub upper : ℕ → ℕ
upper c = if leb b'a' c then c - 32 else c

abbrev pub upper_all : Str → Str
upper_all [] = []
upper_all (c ∷ s) = upper c ∷ upper_all s

hex_digit-hex_value :
    (c : ℕ) → is_hex c ≡ true → (hex_digit (hex_value c) ≡ upper c) × (hex_value c < 16)
unfolding is_hex hex_digit hex_value
hex_digit-hex_value c h = ground arith

nibbles :
    (a b c d : ℕ)
    → a < 16
    → b < 16
    → c < 16
    → d < 16
    → let u = (a * 16 + b) * 256 + (c * 16 + d) in
      (u / 256 / 16 ≡ a) × (u / 256 % 16 ≡ b) × (u % 256 / 16 ≡ c) × (u % 256 % 16 ≡ d)
nibbles a b c d ha hb hc hd = omega arith

all_hex-four :
    (a b c d : ℕ) (s : Str)
    → all_hex (a ∷ b ∷ c ∷ d ∷ s) ≡ true
    → (is_hex a ≡ true)
      × (is_hex b ≡ true)
      × (is_hex c ≡ true)
      × (is_hex d ≡ true)
      × (all_hex s ≡ true)
unfolding all_hex
all_hex-four a b c d s h = unfold_four (is_hex a) (is_hex b) (is_hex c) (is_hex d) (all_hex s) h
  where
    unfold_four :
        (a b c d s : Bool)
        → (a && (b && (c && (d && s)))) ≡ true
        → (a ≡ true) × (b ≡ true) × (c ≡ true) × (d ≡ true) × (s ≡ true)
    unfold_four a b c d s h = ground arith

hex_four :
    (s : Str)
    → all_hex s ≡ true
    → length s % 4 ≡ 0
    → bytes_hex (utf16_be (units_be (hex_bytes s))) ≡ upper_all s
unfolding bytes_hex utf16_be units_be hex_bytes
hex_four [] h l = refl
hex_four (a ∷ []) h l = absurd (omega arith)
hex_four (a ∷ b ∷ []) h l = absurd (omega arith)
hex_four (a ∷ b ∷ c ∷ []) h l = absurd (omega arith)
hex_four (a ∷ b ∷ c ∷ d ∷ s) h l =
    let (ha, hb, hc, hd, hs) = all_hex-four a b c d s h in
    let (ea, la) = hex_digit-hex_value a ha in
    let (eb, lb) = hex_digit-hex_value b hb in
    let (ec, lc) = hex_digit-hex_value c hc in
    let (ed, ld) = hex_digit-hex_value d hd in
    let n = nibbles (hex_value a) (hex_value b) (hex_value c) (hex_value d) la lb lc ld in
    ap₂ (λ x y. x ∷ y) (ap hex_digit n.0 ∙ ea)
      (ap₂ (λ x y. x ∷ y) (ap hex_digit n.1 ∙ eb)
        (ap₂ (λ x y. x ∷ y) (ap hex_digit n.2 ∙ ec)
          (ap₂ (λ x y. x ∷ y) (ap hex_digit n.3 ∙ ed) (hex_four s hs (omega arith)))))

-- Valid hexadecimal text whose length is a multiple of four decodes to a string that is written
-- back as the same text in capitals.
ucs2_hex-ucs2_decode :
    (hex : Str)
    → all_hex hex ≡ true
    → length hex % 4 ≡ 0
    → ucs2_hex (ucs2_decode hex) ≡ upper_all hex
unfolding ucs2_hex ucs2_decode
ucs2_hex-ucs2_decode [] h l = refl
ucs2_hex-ucs2_decode (c ∷ s) h l =
    let nonempty : (length (c ∷ s) == 0) ≡ false = ground arith in
    let fours : (length (c ∷ s) % 4 == 0) ≡ true = ground arith in
    rw (nonempty, fours, h) (hex_four (c ∷ s) h l)

-- A string written as UCS2 hexadecimal takes four digits for each code unit and reads back as itself.
-- Valid hexadecimal text whose length is a multiple of four decodes to a string that is written back
-- as the same text in capitals.
pub ucs2_hex_lem :
    (s hex : Str)
    → All IsUnit s
    → all_hex hex ≡ true
    → length hex % 4 ≡ 0
    → (ucs2_decode (ucs2_hex s) ≡ s)
      × (length (ucs2_hex s) ≡ 4 * length s)
      × (ucs2_hex (ucs2_decode hex) ≡ upper_all hex)
ucs2_hex_lem s hex units valid fours =
    let (back, len) = ucs2_decode-ucs2_hex s units in
    (back, len, ucs2_hex-ucs2_decode hex valid fours)
