-- ===== src/Pdu/Pack.antt =====
-- utils/pdu.js: text as septet codes, and septets packed into octets.
pub mod Tail
pub mod RoundTrip
use Prim.Native.Nat.{bit_or, bit_and}
use modem_sms_gateway.Prelude.{
  ℕ, zero, suc, ◌+◌, ◌-◌, ◌*◌, ◌/◌, ◌%◌, ◌^◌, List, [], ◌∷◌, ◌++◌, Option, none, some, Str, ltb,
  leb, if◌then◌else◌, map_get, Bool, true, false,
}
use modem_sms_gateway.Encoding.Charset.{gsm7_codes, gsm7_ext_codes, chars}

-- One character: its code, or ESC and its code in the extension table, or the thrown error.
unfoldable pub char_septets : Str → Option (List ℕ)
char_septets ch = elim (map_get gsm7_codes ch) [
  | some code ↦ some (code ∷ [])
  | none ↦ elim (map_get gsm7_ext_codes ch) [ some code ↦ some (0x1b ∷ code ∷ []) | none ↦ none ]
]

unfoldable pub septets_from : List Str → List ℕ → Option (List ℕ)
septets_from [] out = some out
septets_from (ch ∷ rest) out = elim (char_septets ch) [
  | some codes ↦ septets_from rest (out ++ codes)
  | none ↦ none
]

-- `gsm7Septets(text)`; `none` is the error about a character outside GSM-7.
unfoldable pub gsm7_septets : Str → Option (List ℕ)
unfolding septets_from
gsm7_septets text = septets_from (chars text) []

-- `x << k` on 32-bit patterns.
abbrev pub shl32 : ℕ → ℕ → ℕ
shl32 x k = x * 2 ^ (k % 32) % 2 ^ 32

-- `x >> 8` on 32-bit patterns: the sign bit is copied in from above.
abbrev pub sar8 : ℕ → ℕ
sar8 x = if ltb x (2 ^ 31) then x / 256 else x / 256 + 0xff00_0000

pub record Packer : Type 0 where
  pub out : List ℕ
  pub acc : ℕ
  pub acc_bits : ℕ

-- `while (accBits >= 8)`: each round takes 8 off, so `acc_bits` rounds do.
unfoldable pub flush_octets : ℕ → Packer → Packer
flush_octets zero p = p
flush_octets (suc fuel) p = elim (leb 8 p.acc_bits) [
  | true ↦ flush_octets fuel (record {
    out = p.out ++ bit_and p.acc 0xff ∷ [];
    acc = sar8 p.acc;
    acc_bits = p.acc_bits - 8;
  })
  | false ↦ p
]

-- The body of the `for` loop for one septet.
unfoldable pub pack_septet : Packer → ℕ → Packer
unfolding flush_octets
pack_septet p s =
    let bits = p.acc_bits + 7 in
    flush_octets bits
      (record { out = p.out; acc = bit_or p.acc (shl32 s p.acc_bits); acc_bits = bits })

unfoldable pub pack_all : Packer → List ℕ → Packer
pack_all p [] = p
pack_all p (s ∷ ss) = pack_all (pack_septet p s) ss

unfoldable pub pack_end : Packer → List ℕ
pack_end p = if ltb 0 p.acc_bits then p.out ++ bit_and p.acc 0xff ∷ [] else p.out

unfoldable pub pack_septets : List ℕ → ℕ → List ℕ
unfolding pack_septet pack_all pack_end
pack_septets septets fill_bits =
    pack_end (pack_all (record { out = []; acc = 0; acc_bits = fill_bits }) septets)
