-- ===== src/Pdu/Address.antt =====
-- utils/pdu.js: two-digit numbers and phone numbers in a PDU.
use modem_sms_gateway.Prelude.{
  ℕ, zero, suc, ◌/◌, ◌%◌, Bool, true, false, [], ◌∷◌, ◌++◌, Str, length, codes, ltb, ◌==◌,
  if◌then◌else◌,
}
use modem_sms_gateway.Encoding.Hex.{hex_digit}

-- `n.toString(16).toUpperCase()`: a division for each digit, so `n` rounds do.
unfoldable pub hex_text : ℕ → ℕ → Str
unfolding hex_digit
hex_text zero n = hex_digit n ∷ []
hex_text (suc fuel) n = elim (ltb n 16) [
  | true ↦ hex_digit n ∷ []
  | false ↦ hex_text fuel (n / 16) ++ hex_digit (n % 16) ∷ []
]

-- `padStart(2, '0')`.
unfoldable pub pad_two : Str → Str
pad_two [] = codes "00"
pad_two (c ∷ []) = b'0' ∷ c ∷ []
pad_two (c ∷ d ∷ s) = c ∷ d ∷ s

unfoldable pub hex : ℕ → Str
unfolding hex_text pad_two
hex n = pad_two (hex_text n n)

pub record Address : Type 0 where
  pub toa : ℕ
  pub digits : Str
  pub digit_count : ℕ

-- The digits in pairs, each pair swapped; `F` stands in for a missing second digit.
unfoldable pub swap_pairs : Str → Str
swap_pairs [] = []
swap_pairs (a ∷ []) = b'F' ∷ a ∷ []
swap_pairs (a ∷ b ∷ s) = b ∷ a ∷ swap_pairs s

abbrev pub is_international : Str → Bool
is_international [] = false
is_international (c ∷ s) = c == b'+'

-- The number behind a leading `+`.
abbrev pub raw_digits : Str → Str
raw_digits [] = []
raw_digits (c ∷ s) = if c == b'+' then s else c ∷ s

unfoldable pub encode_address : Str → Address
unfolding swap_pairs
encode_address number =
    let raw = raw_digits number in
    record {
      toa = if is_international number then 0x91 else 0x81;
      digits = swap_pairs raw;
      digit_count = length raw;
    }
