-- ===== src/Encoding/Hex.antt =====
-- utils/sms-encoding.js: UCS2 hexadecimal text. A code unit is written as two bytes, the high one
-- first (`utf16le` and then `swap16`), and a byte as two digits.
pub mod RoundTrip
use modem_sms_gateway.Prelude.{
  ℕ, ◌+◌, ◌-◌, ◌*◌, ◌/◌, ◌%◌, Bool, true, not, ◌&&◌, ◌||◌, List, [], ◌∷◌, ◌++◌, Str, length, leb,
  ltb, ◌==◌, if◌then◌else◌,
}

-- One hexadecimal digit in capitals.
unfoldable pub hex_digit : ℕ → ℕ
hex_digit d = if ltb d 10 then b'0' + d else b'A' + (d - 10)

-- A byte as `toString('hex').toUpperCase()` writes it.
unfoldable pub byte_hex : ℕ → Str
unfolding hex_digit
byte_hex b = hex_digit (b / 16) ∷ hex_digit (b % 16) ∷ []

unfoldable pub bytes_hex : List ℕ → Str
unfolding byte_hex
bytes_hex [] = []
bytes_hex (b ∷ bs) = byte_hex b ++ bytes_hex bs

-- `Buffer.from(str, 'utf16le').swap16()`.
unfoldable pub utf16_be : Str → List ℕ
utf16_be [] = []
utf16_be (u ∷ s) = (u / 256) ∷ (u % 256) ∷ utf16_be s

unfoldable pub ucs2_hex : Str → Str
unfolding bytes_hex utf16_be
ucs2_hex str = bytes_hex (utf16_be str)

unfoldable pub is_hex : ℕ → Bool
is_hex c = (leb b'0' c && leb c b'9') || (leb b'a' c && leb c b'f') || (leb b'A' c && leb c b'F')

unfoldable pub all_hex : Str → Bool
unfolding is_hex
all_hex [] = true
all_hex (c ∷ s) = is_hex c && all_hex s

unfoldable pub hex_value : ℕ → ℕ
hex_value c = if leb c b'9' then c - b'0' else (if leb b'a' c then c - b'a' + 10 else c - b'A' + 10)

-- `Buffer.from(hex, 'hex')` on an even number of digits.
unfoldable pub hex_bytes : Str → List ℕ
unfolding hex_value
hex_bytes (a ∷ b ∷ s) = (hex_value a * 16 + hex_value b) ∷ hex_bytes s
hex_bytes _ = []

-- `swap16().toString('utf16le')` on an even number of bytes.
unfoldable pub units_be : List ℕ → Str
units_be (hi ∷ lo ∷ bs) = (hi * 256 + lo) ∷ units_be bs
units_be _ = []

unfoldable pub ucs2_decode : Str → Str
unfolding all_hex hex_bytes units_be
ucs2_decode hex =
    if length hex == 0 || not (length hex % 4 == 0) || not (all_hex hex)
    then []
    else units_be (hex_bytes hex)
