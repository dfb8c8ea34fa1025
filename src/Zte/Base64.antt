-- ===== src/Zte/Base64.antt =====
-- utils/zte-http.js: `Buffer.from(PASSWORD).toString('base64')`.
use modem_sms_gateway.Prelude.{
  ℕ, ◌+◌, ◌-◌, ◌*◌, ◌/◌, ◌%◌, ◌&&◌, ◌||◌, List, [], ◌∷◌, ◌++◌, Str, ltb, ◌==◌, if◌then◌else◌,
}
use modem_sms_gateway.Encoding.Charset.{is_high_surrogate, is_low_surrogate}

-- The UTF-8 bytes of a code point.
unfoldable pub point_bytes : ℕ → List ℕ
point_bytes p =
    if ltb p 0x80
    then p ∷ []
    else (if ltb p 0x800
        then (0xc0 + p / 64) ∷ (0x80 + p % 64) ∷ []
        else (if ltb p 0x10000
            then (0xe0 + p / 4096) ∷ (0x80 + p / 64 % 64) ∷ (0x80 + p % 64) ∷ []
            else (0xf0 + p / 262144)
              ∷ (0x80 + p / 4096 % 64)
              ∷ (0x80 + p / 64 % 64)
              ∷ (0x80 + p % 64)
              ∷ []))

-- A surrogate that stands alone becomes U+FFFD.
abbrev pub lone_point : ℕ → ℕ
lone_point u = if is_high_surrogate u || is_low_surrogate u then 0xfffd else u

unfoldable pub utf8 : Str → List ℕ
unfolding point_bytes
utf8 [] = []
utf8 (u ∷ []) = point_bytes (lone_point u)
utf8 (u ∷ v ∷ s) =
    let pair = point_bytes (0x10000 + (u - 0xd800) * 1024 + (v - 0xdc00)) ++ utf8 s in
    let single = point_bytes (lone_point u) ++ utf8 (v ∷ s) in
    if is_high_surrogate u && is_low_surrogate v then pair else single

unfoldable pub base64_char : ℕ → ℕ
base64_char d =
    if ltb d 26
    then b'A' + d
    else (if ltb d 52
        then b'a' + (d - 26)
        else (if ltb d 62 then b'0' + (d - 52) else (if d == 62 then b'+' else b'/')))

unfoldable pub base64_bytes : List ℕ → Str
unfolding base64_char
base64_bytes [] = []
base64_bytes (a ∷ []) = base64_char (a / 4) ∷ base64_char (a % 4 * 16) ∷ b'=' ∷ b'=' ∷ []
base64_bytes (a ∷ b ∷ []) =
    base64_char (a / 4) ∷ base64_char (a % 4 * 16 + b / 16) ∷ base64_char (b % 16 * 4) ∷ b'=' ∷ []
base64_bytes (a ∷ b ∷ c ∷ bs) =
    base64_char (a / 4)
    ∷ base64_char (a % 4 * 16 + b / 16)
    ∷ base64_char (b % 16 * 4 + c / 64)
    ∷ base64_char (c % 64)
    ∷ base64_bytes bs

unfoldable pub base64 : Str → Str
unfolding utf8 base64_bytes
base64 s = base64_bytes (utf8 s)
