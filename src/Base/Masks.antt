-- ===== src/Base/Masks.antt =====
-- `(a & ~mask) | b`: digits put into the low places of a number that has zeros there.
use Prim.Native.Nat.{
  ℕ, zero, suc, ◌+◌, ◌*◌, ◌/◌, ◌%◌, ◌^◌, ◌≤◌, ◌<◌, max, digits, bit_or, bit_or-bitwise,
}
use mathlib.Core.Path.{◌≡◌, refl, ap, ◌∙◌}
use native.Mathlib.Omega.{arith}

double : (q w : ℕ) → q * (w + w) ≡ q * w + q * w
double q w = omega arith

power_twice : (k : ℕ) → 2 ^ suc k ≡ 2 ^ k + 2 ^ k
power_twice k = ground arith

low_digits : (k n a b q : ℕ) → a ≤ n → a ≡ q * 2 ^ k → b < 2 ^ k → digits (λ b. b) max n a b ≡ a + b
low_digits k zero a b q bound e h = omega (arith, bound)
low_digits k (suc n) zero b q bound e h = omega arith
low_digits zero (suc n) (suc a) b q bound e h =
    let rest =
      low_digits zero n (suc a / 2) (b / 2) (suc a / 2) (omega arith) (omega arith) (omega arith) in
    omega (arith, rest, h)
low_digits (suc k) (suc n) (suc a) b q bound e h =
    let twice : q * 2 ^ suc k ≡ q * 2 ^ k + q * 2 ^ k =
      ap (λ w. q * w) (power_twice k) ∙ double q (2 ^ k) in
    let half : suc a / 2 ≡ q * 2 ^ k = omega (arith, e, twice) in
    let even : suc a % 2 ≡ 0 = omega (arith, e, twice) in
    let rest =
      low_digits k n (suc a / 2) (b / 2) q (omega arith) half (omega (arith, h, power_twice k)) in
    omega (arith, rest, even)

pub bit_or-low : (q k b : ℕ) → b < 2 ^ k → bit_or (q * 2 ^ k) b ≡ q * 2 ^ k + b
bit_or-low q k b h =
    bit_or-bitwise (q * 2 ^ k) b ∙ low_digits k (q * 2 ^ k) (q * 2 ^ k) b q (omega arith) refl h
