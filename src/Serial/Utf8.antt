-- ===== src/Serial/Utf8.antt =====
-- utils/modem.js: `chunk.toString('utf8')`, the decoder of UTF-8 that replaces what it cannot read, as the
-- WHATWG encoding standard has it.
use modem_sms_gateway.Prelude.{
  ℕ, ◌+◌, ◌-◌, ◌*◌, ◌/◌, ◌%◌, ◌≡◌, refl, sym, ap, ◌∙◌, Bool, true, false, ◌&&◌, List, [], ◌∷◌, ◌++◌,
  append_assoc, append-nil, arith, Str, ◌==◌, ltb, leb, if◌then◌else◌,
}

-- Between two characters; or inside one, with its number so far, the bytes that are left, and the range
-- of the next byte: from `0x80` and something over it to an upper bound.
pub data Decoder : Type 0 where
  idle : Decoder
  inside : ℕ → ℕ → ℕ → ℕ → Decoder

abbrev pub replacement : Str
replacement = 0xfffd ∷ []

-- The UTF-16 units of a character.
unfoldable pub utf16 : ℕ → Str
utf16 c =
    if ltb c 0x10000
    then c ∷ []
    else (0xd800 + (c - 0x10000) / 0x400) ∷ (0xdc00 + (c - 0x10000) % 0x400) ∷ []

-- The first byte of a character: what is printed, and the state behind it.
unfoldable pub first_byte : ℕ → Str × Decoder
first_byte b =
    if ltb b 0x80
    then (b ∷ [], idle)
    else (if ltb b 0xc2
        then (replacement, idle)
        else (if ltb b 0xe0
            then ([], inside (b - 0xc0) 1 0 0xbf)
            else (if ltb b 0xf0
                then (
                  [],
                  inside (b - 0xe0) 2 (if b == 0xe0 then 0x20 else 0)
                      (if b == 0xed then 0x9f else 0xbf),
                )
                else (if ltb b 0xf5
                    then (
                      [],
                      inside (b - 0xf0) 3 (if b == 0xf0 then 0x10 else 0)
                          (if b == 0xf4 then 0x8f else 0xbf),
                    )
                    else (replacement, idle)))))

unfoldable pub next_byte : Decoder → ℕ → Str × Decoder
unfolding first_byte utf16
next_byte idle b = first_byte b
next_byte (inside code left over upper) b =
    if leb (0x80 + over) b && leb b upper
    then (if left == 1
        then (utf16 (64 * code + (b - 0x80)), idle)
        else ([], inside (64 * code + (b - 0x80)) (left - 1) 0 0xbf))
    else (replacement ++ (first_byte b).0, (first_byte b).1)

-- What is printed at the end of the bytes.
abbrev pub flush : Decoder → Str
flush idle = []
flush (inside code left over upper) = replacement

unfoldable pub decode : Decoder → List ℕ → Str
unfolding next_byte
decode d [] = flush d
decode d (b ∷ bs) = let r = next_byte d b in r.0 ++ decode r.1 bs

-- The last byte is one of ASCII.
abbrev pub ends_ascii : List ℕ → Bool
ends_ascii [] = false
ends_ascii (b ∷ []) = ltb b 0x80
ends_ascii (b ∷ c ∷ bs) = ends_ascii (c ∷ bs)

first_byte-ascii : (b : ℕ) → ltb b 0x80 ≡ true → (first_byte b).1 ≡ idle
unfolding first_byte
first_byte-ascii b h = rw h refl

next_byte-ascii : (d : Decoder) (b : ℕ) → ltb b 0x80 ≡ true → (next_byte d b).1 ≡ idle
unfolding next_byte
next_byte-ascii idle b h = first_byte-ascii b h
next_byte-ascii (inside code left over upper) b h =
    let out : leb (0x80 + over) b ≡ false = ground (arith, h) in rw out (first_byte-ascii b h)

-- Behind a byte of ASCII a text may be cut.
pub decode-append :
    (d : Decoder) (a b : List ℕ)
    → ends_ascii a ≡ true
    → decode d (a ++ b) ≡ decode d a ++ decode idle b
unfolding decode
decode-append d [] b h = absurd (cc)
decode-append d (c ∷ []) b h =
    let e = next_byte-ascii d c h in rw (e, append-nil (next_byte d c).0) refl
decode-append d (c ∷ c' ∷ a) b h =
    let r = next_byte d c in
    ap (λ (t : Str). r.0 ++ t) (decode-append r.1 (c' ∷ a) b h)
    ∙ sym (append_assoc r.0 (decode r.1 (c' ∷ a)) (decode idle b))
