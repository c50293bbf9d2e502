-- ===== src/Base/Bits.antt =====
-- Bit operations on a byte, by trying every value.
use Prim.Native.Nat.{ℕ, zero, suc, ◌+◌, ◌<◌, bit_or}
use mathlib.Core.Path.{◌≡◌, refl}
use mathlib.Core.Logic.{◌⊎◌, inl, inr}
use mathlib.Core.Bool.{Bool, true, ◌&&◌}
use native.Mathlib.Omega.{arith}
use zngtcp.Base.Tests.{◌==◌}

-- Under the bound, `bit_or` with the flag adds it.
unfoldable adds_flag : (flag bound : ℕ) → Bool
adds_flag flag zero = true
adds_flag flag (suc k) = adds_flag flag k && (bit_or k flag == k + flag)

bit_or-add :
    (flag bound : ℕ) → adds_flag flag bound ≡ true → {x : ℕ} → x < bound → bit_or x flag ≡ x + flag
unfolding adds_flag
bit_or-add flag zero found h = absurd (omega (arith, h))
bit_or-add flag (suc k) found {x} h =
    let last_or_below : (x ≡ k) ⊎ (x < k) = omega (arith, h) in
    elim last_or_below [
      | inl last ↦ ground (arith, last, found)
      | inr below ↦ bit_or-add flag k (ground (arith, found)) below
    ]

-- Setting the two top bits of a byte that has them clear.
pub or_0x40 : (x : ℕ) → x < 64 → bit_or x 0x40 ≡ x + 64
unfolding adds_flag
or_0x40 x = bit_or-add 0x40 64 refl

pub or_0x80 : (x : ℕ) → x < 64 → bit_or x 0x80 ≡ x + 128
unfolding adds_flag
or_0x80 x = bit_or-add 0x80 64 refl

pub or_0xc0 : (x : ℕ) → x < 64 → bit_or x 0xc0 ≡ x + 192
unfolding adds_flag
or_0xc0 x = bit_or-add 0xc0 64 refl
