-- ===== src/Pdu/Pack/RoundTrip.antt =====
-- utils/pdu.js: the octets of `packSeptets` as one number, and unpacked again.
use native.Mathlib.Nat.{pow-suc, mul-div_cancel_left}
use modem_sms_gateway.Prelude.{
  ℕ, zero, suc, ◌+◌, ◌*◌, ◌/◌, ◌%◌, ◌^◌, ◌<◌, ◌≡◌, refl, ap, ◌∙◌, List, [], ◌∷◌, arith, length, All,
}
use modem_sms_gateway.Pdu.Pack.{pack_septets}
use modem_sms_gateway.Pdu.Pack.Tail.{IsSeptet, pack_tail, pow-le, next_small, pack_all_lem}

-- The number whose base-256 digits are the octets, the first one lowest.
abbrev pub octets_value : List ℕ → ℕ
octets_value [] = 0
octets_value (b ∷ bs) = b + 256 * octets_value bs

abbrev pub septets_value : List ℕ → ℕ
septets_value [] = 0
septets_value (s ∷ ss) = s + 128 * septets_value ss

pack_tail_value :
    (acc k : ℕ) (ss : List ℕ)
    → acc < 2 ^ k
    → k < 8
    → All IsSeptet ss
    → octets_value (pack_tail acc k ss) ≡ acc + 2 ^ k * septets_value ss
unfolding pack_tail
pack_tail_value acc zero [] small few h = omega arith
pack_tail_value acc (suc k) [] small few h = omega (arith, pow-le (suc k) few)
pack_tail_value acc zero (s ∷ ss) small few h =
    omega (arith, pack_tail_value (acc + s) 7 ss (omega arith) (omega arith) h.1)
pack_tail_value acc (suc k) (s ∷ ss) small few h = omega (
  arith,
  pack_tail_value ((acc + s * 2 ^ suc k) / 256) k ss (next_small acc k s small h.0) (omega arith)
      h.1,
  ap (λ (t : ℕ). t * septets_value ss) (pow-suc 2 k),
)

length-pack_tail :
    (acc k : ℕ) (ss : List ℕ) → k < 8 → length (pack_tail acc k ss) ≡ (k + 7 * length ss + 7) / 8
unfolding pack_tail
length-pack_tail acc zero [] few = omega arith
length-pack_tail acc (suc k) [] few = omega arith
length-pack_tail acc zero (s ∷ ss) few =
    omega (arith, length-pack_tail (acc + s) 7 ss (omega arith))
length-pack_tail acc (suc k) (s ∷ ss) few =
    omega (arith, length-pack_tail ((acc + s * 2 ^ suc k) / 256) k ss (omega arith))

pack_tail-bytes : (acc k : ℕ) (ss : List ℕ) → All (λ b. b < 256) (pack_tail acc k ss)
unfolding pack_tail
pack_tail-bytes acc zero [] = tt
pack_tail-bytes acc (suc k) [] = (omega arith, tt)
pack_tail-bytes acc zero (s ∷ ss) = pack_tail-bytes (acc + s) 7 ss
pack_tail-bytes acc (suc k) (s ∷ ss) =
    (omega arith, pack_tail-bytes ((acc + s * 2 ^ suc k) / 256) k ss)

pow-pos : (k : ℕ) → 0 < 2 ^ k
pow-pos zero = omega arith
pow-pos (suc k) = omega (arith, pow-pos k, pow-suc 2 k)

pack_septets-tail :
    (ss : List ℕ) (fill : ℕ)
    → fill < 8
    → All IsSeptet ss
    → pack_septets ss fill ≡ pack_tail 0 fill ss
unfolding pack_septets
pack_septets-tail ss fill few h = pack_all_lem [] 0 fill ss (pow-pos fill) few h

-- Packing septets behind fewer than eight fill bits: each octet is a byte, there are as many as the
-- bits need, and read as one little-endian number they are the septets behind the fill bits.
pub octets_value-pack_septets :
    (ss : List ℕ) (fill : ℕ)
    → fill < 8
    → All IsSeptet ss
    → (octets_value (pack_septets ss fill) ≡ 2 ^ fill * septets_value ss)
      × (length (pack_septets ss fill) ≡ (fill + 7 * length ss + 7) / 8)
      × All (λ b. b < 256) (pack_septets ss fill)
octets_value-pack_septets ss fill few h = rw (pack_septets-tail ss fill few h) (
  pack_tail_value 0 fill ss (pow-pos fill) few h ∙ omega arith,
  length-pack_tail 0 fill ss few,
  pack_tail-bytes 0 fill ss,
)

-- The receiver's reading: `n` septets, each the next seven bits of the octets as a bit stream.
abbrev pub read_septets : ℕ → ℕ → List ℕ
read_septets zero v = []
read_septets (suc n) v = v % 128 ∷ read_septets n (v / 128)

pub unpack_septets : ℕ → ℕ → List ℕ → List ℕ
unpack_septets n fill octets = read_septets n (octets_value octets / 2 ^ fill)

read_septets-value :
    (ss : List ℕ) → All IsSeptet ss → read_septets (length ss) (septets_value ss) ≡ ss
read_septets-value [] h = refl
read_septets-value (s ∷ ss) h =
    let low : (s + 128 * septets_value ss) % 128 ≡ s = omega arith in
    let high : (s + 128 * septets_value ss) / 128 ≡ septets_value ss = omega arith in
    rw (low, high) (ap (λ t. s ∷ t) (read_septets-value ss h.1))

-- What the sender packs the receiver unpacks.
pub unpack_septets-pack_septets :
    (ss : List ℕ) (fill : ℕ)
    → fill < 8
    → All IsSeptet ss
    → unpack_septets (length ss) fill (pack_septets ss fill) ≡ ss
unfolding unpack_septets
unpack_septets-pack_septets ss fill few h =
    rw
      (
        (octets_value-pack_septets ss fill few h).0,
        mul-div_cancel_left (septets_value ss) (pow-pos fill),
      )
      (read_septets-value ss h)

-- Packing septets behind fewer than eight fill bits: each octet is a byte, there are as many as the
-- bits need, read as one little-endian number they are the septets behind the fill bits, and a
-- receiver unpacks from them the septets that were packed.
pub pack_septets_lem :
    (ss : List ℕ) (fill : ℕ)
    → fill < 8
    → All IsSeptet ss
    → ((octets_value (pack_septets ss fill) ≡ 2 ^ fill * septets_value ss)
        × (length (pack_septets ss fill) ≡ (fill + 7 * length ss + 7) / 8)
        × All (λ b. b < 256) (pack_septets ss fill))
      × (unpack_septets (length ss) fill (pack_septets ss fill) ≡ ss)
pack_septets_lem ss fill few h =
    (octets_value-pack_septets ss fill few h, unpack_septets-pack_septets ss fill few h)
