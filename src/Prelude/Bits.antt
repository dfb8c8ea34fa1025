-- ===== src/Prelude/Bits.antt =====
-- `|` of two numbers whose binary digits do not overlap, and `&` with 0xff, as arithmetic.
use Prim.Native.Nat.{
  ℕ, zero, suc, ◌+◌, ◌*◌, ◌/◌, ◌%◌, ◌^◌, ◌≤◌, ◌<◌, min, max, digits, bit_and, bit_or,
  bit_and-bitwise, bit_or-bitwise,
}
use mathlib.Core.Path.{◌≡◌, refl, ap, ◌∙◌}
use native.Mathlib.Nat.{pow-suc}
use native.Mathlib.Omega.{arith}

abbrev or_digits : ℕ → ℕ → ℕ → ℕ
or_digits n a b = digits (λ y. y) max n a b

abbrev and_digits : ℕ → ℕ → ℕ → ℕ
and_digits n a b = digits (λ y. zero) min n a b

double : (s k : ℕ) → s * 2 ^ suc k ≡ 2 * (s * 2 ^ k)
double s k = omega (arith, ap (λ (t : ℕ). s * t) (pow-suc 2 k))

or_digits-add : (k n a s : ℕ) → a ≤ n → a < 2 ^ k → or_digits n a (s * 2 ^ k) ≡ a + s * 2 ^ k
or_digits-add k zero zero s le lt = omega arith
or_digits-add k zero (suc a) s le lt = absurd (omega arith)
or_digits-add k (suc n) zero s le lt = omega arith
or_digits-add zero (suc n) (suc a) s le lt = absurd (omega arith)
or_digits-add (suc k) (suc n) (suc a) s le lt =
    let half : s * 2 ^ suc k / 2 ≡ s * 2 ^ k = omega (arith, double s k) in
    let even : s * 2 ^ suc k % 2 ≡ 0 = omega (arith, double s k) in
    let small : suc a / 2 < 2 ^ k = omega (arith, pow-suc 2 k) in
    rw (half, even, or_digits-add k n (suc a / 2) s (omega arith) small) (omega (arith, double s k))

-- A number below 2 ^ k and a multiple of 2 ^ k are added by `|`.
pub bit_or-add : (a s k : ℕ) → a < 2 ^ k → bit_or a (s * 2 ^ k) ≡ a + s * 2 ^ k
bit_or-add a s k lt = bit_or-bitwise a (s * 2 ^ k) ∙ or_digits-add k a a s (omega arith) lt

abbrev mask : ℕ → ℕ
mask zero = 0
mask (suc k) = mask k * 2 + 1

abbrev low_bits : ℕ → ℕ → ℕ
low_bits zero a = 0
low_bits (suc k) a = low_bits k (a / 2) * 2 + a % 2

low_bits-zero : (k : ℕ) → low_bits k 0 ≡ 0
low_bits-zero zero = refl
low_bits-zero (suc k) = omega (arith, low_bits-zero k)

and_digits-none : (n a : ℕ) → and_digits n a 0 ≡ 0
and_digits-none zero a = refl
and_digits-none (suc n) zero = refl
and_digits-none (suc n) (suc a) = omega (arith, and_digits-none n (suc a / 2))

and_digits-mask : (k n a : ℕ) → a ≤ n → and_digits n a (mask k) ≡ low_bits k a
and_digits-mask zero n a le = and_digits-none n a
and_digits-mask (suc k) zero zero le = omega (arith, low_bits-zero k)
and_digits-mask (suc k) zero (suc a) le = absurd (omega arith)
and_digits-mask (suc k) (suc n) zero le = omega (arith, low_bits-zero k)
and_digits-mask (suc k) (suc n) (suc a) le =
    let half : (mask k * 2 + 1) / 2 ≡ mask k = omega arith in
    let odd : (mask k * 2 + 1) % 2 ≡ 1 = omega arith in
    rw (half, odd, and_digits-mask k n (suc a / 2) (omega arith)) (omega arith)

pub bit_and-255 : (a : ℕ) → bit_and a 0xff ≡ a % 256
bit_and-255 a = bit_and-bitwise a 0xff ∙ and_digits-mask 8 a a (omega arith) ∙ omega arith
