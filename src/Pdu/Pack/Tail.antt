-- ===== src/Pdu/Pack/Tail.antt =====
-- utils/pdu.js: the packer's loops as a plain recursion on the septets left.
use Prim.Native.Nat.{bit_or, bit_and}
use native.Mathlib.Nat.{pow-suc}
use modem_sms_gateway.Prelude.{
  ℕ, zero, suc, ◌+◌, ◌-◌, ◌*◌, ◌/◌, ◌%◌, ◌^◌, ◌≤◌, ◌<◌, ◌≡◌, refl, sym, ap, ◌∙◌, true, false, List,
  [], ◌∷◌, ◌++◌, append-nil, append_assoc, arith, leb, ltb, All,
}
use modem_sms_gateway.Prelude.Bits.{bit_or-add, bit_and-255}
use modem_sms_gateway.Pdu.Pack.{shl32, sar8, flush_octets, pack_septet, pack_all, pack_end}

abbrev pub IsSeptet : ℕ → Type 0
IsSeptet s = s < 128

-- What is still to come out of the packer with `acc` in `bits` bits.
unfoldable pub pack_tail : ℕ → ℕ → List ℕ → List ℕ
pack_tail acc zero [] = []
pack_tail acc (suc k) [] = acc % 256 ∷ []
pack_tail acc zero (s ∷ ss) = pack_tail (acc + s) 7 ss
pack_tail acc (suc k) (s ∷ ss) =
    (acc + s * 2 ^ suc k) % 256 ∷ pack_tail ((acc + s * 2 ^ suc k) / 256) k ss

pub pow-le : (k : ℕ) → k < 8 → 2 ^ k ≤ 128
pow-le zero h = omega arith
pow-le (suc zero) h = omega arith
pow-le (suc (suc zero)) h = omega arith
pow-le (suc (suc (suc zero))) h = omega arith
pow-le (suc (suc (suc (suc zero)))) h = omega arith
pow-le (suc (suc (suc (suc (suc zero))))) h = omega arith
pow-le (suc (suc (suc (suc (suc (suc zero)))))) h = omega arith
pow-le (suc (suc (suc (suc (suc (suc (suc zero))))))) h = omega arith
pow-le (suc (suc (suc (suc (suc (suc (suc (suc k)))))))) h = absurd (omega arith)

sum-lt : (acc s p : ℕ) → acc < p → s < 128 → acc + s * p < 128 * p
sum-lt acc s p h k = grind arith

or_lem : (acc k s : ℕ) → acc < 2 ^ k → k < 8 → s < 128 → bit_or acc (shl32 s k) ≡ acc + s * 2 ^ k
or_lem acc k s small few septet =
    let bound : s * 2 ^ k < 2 ^ 32 =
      omega (arith, sum-lt acc s (2 ^ k) small septet, pow-le k few) in
    let e : k % 32 ≡ k = omega arith in
    let w : s * 2 ^ k % 2 ^ 32 ≡ s * 2 ^ k = omega arith in rw (e, w) (bit_or-add acc s k small)

flush_more :
    (f n acc : ℕ) (out : List ℕ)
    → leb 8 n ≡ true
    → flush_octets (suc f) (record { out = out; acc = acc; acc_bits = n })
      ≡ flush_octets f
          (record { out = out ++ bit_and acc 0xff ∷ []; acc = sar8 acc; acc_bits = n - 8 })
unfolding flush_octets
flush_more f n acc out e = rw (flush_octets, e) refl

flush_done :
    (f n acc : ℕ) (out : List ℕ)
    → leb 8 n ≡ false
    → flush_octets (suc f) (record { out = out; acc = acc; acc_bits = n })
      ≡ record { out = out; acc = acc; acc_bits = n }
unfolding flush_octets
flush_done f n acc out e = rw (flush_octets, e) refl

-- With 8 to 15 bits one octet goes out.
flush_once :
    (f n acc : ℕ) (out : List ℕ)
    → 8 ≤ n
    → n < 16
    → acc < 2 ^ 31
    → flush_octets (suc (suc f)) (record { out = out; acc = acc; acc_bits = n })
      ≡ record { out = out ++ acc % 256 ∷ []; acc = acc / 256; acc_bits = n - 8 }
flush_once f n acc out lo hi small =
    let below : ltb acc (2 ^ 31) ≡ true = ground arith in
    let shifted : sar8 acc ≡ acc / 256 = ground arith in
    flush_more (suc f) n acc out (ground arith)
    ∙ flush_done f (n - 8) (sar8 acc) (out ++ bit_and acc 0xff ∷ []) (ground arith)
    ∙ rw (bit_and-255 acc, shifted) refl

pack_septet_zero :
    (out : List ℕ) (s : ℕ)
    → s < 128
    → pack_septet (record { out = out; acc = 0; acc_bits = 0 }) s
      ≡ record { out = out; acc = s; acc_bits = 7 }
unfolding pack_septet
pack_septet_zero out s septet =
    let e : bit_or 0 (shl32 s 0) ≡ s =
      or_lem 0 0 s (omega arith) (omega arith) septet ∙ omega arith in
    λ i. record { out = out; acc = e i; acc_bits = 7 }

pack_septet-suc :
    (out : List ℕ) (acc k s : ℕ)
    → acc < 2 ^ suc k
    → suc k < 8
    → s < 128
    → pack_septet (record { out = out; acc = acc; acc_bits = suc k }) s ≡ record {
      out = out ++ (acc + s * 2 ^ suc k) % 256 ∷ [];
      acc = (acc + s * 2 ^ suc k) / 256;
      acc_bits = k;
    }
unfolding pack_septet
pack_septet-suc out acc k s small few septet =
    let bits : suc k + 7 ≡ suc (suc (k + 6)) = omega arith in
    let left : suc (suc (k + 6)) - 8 ≡ k = omega arith in
    let bound : acc + s * 2 ^ suc k < 2 ^ 31 =
      omega (arith, sum-lt acc s (2 ^ suc k) small septet, pow-le (suc k) few) in
    rw (or_lem acc (suc k) s small few septet, bits)
      (flush_once (k + 6) (suc (suc (k + 6))) (acc + s * 2 ^ suc k) out (omega arith) (omega arith)
          bound
        ∙ λ i. record {
          out = out ++ (acc + s * 2 ^ suc k) % 256 ∷ [];
          acc = (acc + s * 2 ^ suc k) / 256;
          acc_bits = left i;
        })

pub next_small : (acc k s : ℕ) → acc < 2 ^ suc k → s < 128 → (acc + s * 2 ^ suc k) / 256 < 2 ^ k
next_small acc k s small septet = omega (arith, sum-lt acc s (2 ^ suc k) small septet, pow-suc 2 k)

-- The packer is a plain recursion on the septets left.
pub pack_all_lem :
    (out : List ℕ) (acc k : ℕ) (ss : List ℕ)
    → acc < 2 ^ k
    → k < 8
    → All IsSeptet ss
    → pack_end (pack_all (record { out = out; acc = acc; acc_bits = k }) ss)
      ≡ out ++ pack_tail acc k ss
unfolding pack_end pack_all pack_tail
pack_all_lem out acc zero [] small few h = sym (append-nil out)
pack_all_lem out acc (suc k) [] small few h = rw (bit_and-255 acc) (ground arith)
pack_all_lem out zero zero (s ∷ ss) small few h =
    ap (λ p. pack_end (pack_all p ss)) (pack_septet_zero out s h.0)
    ∙ pack_all_lem out s 7 ss (omega arith) (omega arith) h.1
    ∙ ap (λ t. out ++ pack_tail t 7 ss) (omega arith)
pack_all_lem out (suc acc) zero (s ∷ ss) small few h = absurd (omega arith)
pack_all_lem out acc (suc k) (s ∷ ss) small few h =
    ap (λ p. pack_end (pack_all p ss)) (pack_septet-suc out acc k s small few h.0)
    ∙ pack_all_lem (out ++ (acc + s * 2 ^ suc k) % 256 ∷ []) ((acc + s * 2 ^ suc k) / 256) k ss
        (next_small acc k s small h.0) (omega arith) h.1
    ∙ append_assoc out ((acc + s * 2 ^ suc k) % 256 ∷ [])
        (pack_tail ((acc + s * 2 ^ suc k) / 256) k ss)
