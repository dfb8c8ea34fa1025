-- ===== src/Encoding/Charset.antt =====
-- utils/sms-encoding.js: the recipient format, the capacities and the GSM-7 character tables.
use modem_sms_gateway.Prelude.{
  ℕ, ◌+◌, ◌≡◌, refl, Bool, true, false, ◌&&◌, List, [], ◌∷◌, ◌++◌, Option, none, some, arith, Str,
  codes, length, concat, ltb, leb, ◌==◌, if◌then◌else◌, map_has, map_set,
}

abbrev pub max_segments : ℕ
max_segments = 3

abbrev pub gsm7_single : ℕ
gsm7_single = 160

abbrev pub gsm7_per_segment : ℕ
gsm7_per_segment = 153

abbrev pub ucs2_single : ℕ
ucs2_single = 70

abbrev pub ucs2_per_segment : ℕ
ucs2_per_segment = 67

unfoldable pub is_digit : ℕ → Bool
is_digit c = leb b'0' c && leb c b'9'

unfoldable pub all_digits : Str → Bool
all_digits [] = true
all_digits (c ∷ s) = is_digit c && all_digits s

-- `[0-9]{7,15}`, from the first character to the last.
unfoldable pub digits_7_15 : Str → Bool
unfolding all_digits is_digit
digits_7_15 s = all_digits s && (leb 7 (length s) && leb (length s) 15)

-- `PHONE_RE.test(s)`.
unfoldable pub phone_re : Str → Bool
unfolding digits_7_15
phone_re [] = false
phone_re (c ∷ s) = if c == b'+' then digits_7_15 s else digits_7_15 (c ∷ s)

-- The characters of the basic set by septet code, with ESC (0x1B) left out.
unfoldable pub gsm7_basic : Str
gsm7_basic =
    codes "@£$¥èéùìòÇ\nØø\rÅåΔ_ΦΓΛΩΠΨΣΘΞÆæßÉ !\"#¤%&'()*+,-./0123456789:;<=>?"
    ++ codes "¡ABCDEFGHIJKLMNOPQRSTUVWXYZÄÖÑÜ§¿abcdefghijklmnopqrstuvwxyzäöñüà"

-- The loop that fills `GSM7_CODES`, from index `i` on.
unfoldable pub gsm7_codes_from : ℕ → Str → List (Str × ℕ) → List (Str × ℕ)
unfolding map_set
gsm7_codes_from i [] m = m
gsm7_codes_from i (c ∷ s) m =
    gsm7_codes_from (i + 1) s (map_set m (c ∷ []) (if ltb i 0x1b then i else i + 1))

unfoldable pub gsm7_codes : List (Str × ℕ)
unfolding gsm7_codes_from gsm7_basic
gsm7_codes = gsm7_codes_from 0 gsm7_basic []

unfoldable pub gsm7_ext_codes : List (Str × ℕ)
gsm7_ext_codes =
    (codes "^", 0x14)
    ∷ (codes "{", 0x28)
    ∷ (codes "}", 0x29)
    ∷ (codes "\\", 0x2f)
    ∷ (codes "[", 0x3c)
    ∷ (codes "~", 0x3d)
    ∷ (codes "]", 0x3e)
    ∷ (codes "|", 0x40)
    ∷ (codes "€", 0x65)
    ∷ []

-- Septet cost of one character; `none` is the `null` of a character outside the set.
unfoldable pub gsm7_cost : Str → Option ℕ
unfolding map_has
gsm7_cost ch =
    if map_has gsm7_codes ch then some 1 else (if map_has gsm7_ext_codes ch then some 2 else none)

abbrev pub is_high_surrogate : ℕ → Bool
is_high_surrogate u = leb 0xd800 u && leb u 0xdbff

abbrev pub is_low_surrogate : ℕ → Bool
is_low_surrogate u = leb 0xdc00 u && leb u 0xdfff

-- What `for (const ch of s)` visits: one code unit, or a surrogate pair.
unfoldable pub chars : Str → List Str
chars [] = []
chars (u ∷ []) = (u ∷ []) ∷ []
chars (u ∷ v ∷ s) = elim (is_high_surrogate u && is_low_surrogate v) [
  | true ↦ (u ∷ v ∷ []) ∷ chars s
  | false ↦ (u ∷ []) ∷ chars (v ∷ s)
]

-- Iterating a string and gluing the pieces together gives the string back.
pub concat-chars : (s : Str) → concat (chars s) ≡ s
unfolding chars
concat-chars [] = refl
concat-chars (u ∷ []) = refl
concat-chars (u ∷ v ∷ s) = ground (arith, concat-chars s, concat-chars (v ∷ s))
