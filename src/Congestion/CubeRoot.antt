-- ===== src/Congestion/CubeRoot.antt =====
-- `ngtcp2_cbrt` of lib/ngtcp2_cc.c, an integer cube root, digit by digit in base 2.
use native.Mathlib.Nat.{
  mul-le-mul, one-le-pow, le-div_iff_mul-le, div-lt_iff_lt-mul, pow-succ', le-mul_of_pos_right,
  mul-le-mul_right,
}
use native.Mathlib.Numerals.{towards_suc}
use zngtcp.Base.{
  ℕ, zero, suc, ◌+◌, ◌-◌, ◌*◌, ◌/◌, ◌%◌, ◌^◌, ◌≤◌, ◌<◌, ◌≡◌, ap, inl, inr, Bool-cases, leb, arith,
  if◌then◌else◌,
}

-- What is left of the radicand, and the root so far
pub record Digits : Type 0 where
  pub n : ℕ
  pub y : ℕ

-- `3 * y * (y + 1) + 1`
unfoldable pub next_cube : ℕ → ℕ
next_cube y = (3 * y * (y + 1) + 1) % 2 ^ 64

-- The body of the loop, at the shift `s`
unfoldable pub cbrt_round : ℕ → Digits → Digits
cbrt_round s d =
    let y = 2 * d.y % 2 ^ 64 in
    let b = next_cube y in
    if leb b (d.n / 2 ^ s)
    then record { n = (d.n + 2 ^ 64 - b * 2 ^ s % 2 ^ 64) % 2 ^ 64; y = y + 1 }
    else record { n = d.n; y = y }

-- The loop, over the shifts `3 * rounds` down to 3
unfoldable pub cbrt_loop : ℕ → Digits → Digits
cbrt_loop zero d = d
cbrt_loop (suc rounds) d = cbrt_loop rounds (cbrt_round (3 * suc rounds) d)

unfoldable pub cbrt : ℕ → ℕ
cbrt n =
    let d = cbrt_loop 21 (record { n = n; y = 0 }) in
    let y = 2 * d.y % 2 ^ 64 in if leb (next_cube y) d.n then y + 1 else y

abbrev pub cube : ℕ → ℕ
cube y = y * y * y

-- The root of `m` in units of `p`: the largest `y` with `cube y * p ≤ m`.
pub record IsRoot (m p : ℕ) (d : Digits) : Type 0 where
  pub split : d.n + cube d.y * p ≡ m
  pub below : m < cube (d.y + 1) * p

cube_succ : (y p : ℕ) → cube (y + 1) * p ≡ cube y * p + (3 * y * (y + 1) + 1) * p
cube_succ y p = grind arith

cube_double : (y p : ℕ) → cube (2 * y) * p ≡ cube y * (8 * p)
cube_double y p = grind arith

cube_double_succ : (y p : ℕ) → cube (2 * y + 2) * p ≡ cube (y + 1) * (8 * p)
cube_double_succ y p = grind arith

next_cube-eq : (y : ℕ) → y < 2 ^ 22 → next_cube y ≡ 3 * y * (y + 1) + 1
unfolding next_cube
next_cube-eq y h =
    let small : 3 * y * (y + 1) ≤ 3 * 2 ^ 22 * 2 ^ 22 =
      mul-le-mul {n₂ = 3 * 2 ^ 22} {m₂ = 2 ^ 22} (omega arith) (omega arith) in
    omega (arith, small)

module _ (m p : ℕ) (d : Digits) (pos : 0 < p) (root : IsRoot m (8 * p) d) where
  -- The new digit is 1.
  taken :
      (b n : ℕ)
      → b ≡ 3 * (2 * d.y) * (2 * d.y + 1) + 1
      → n + b * p ≡ d.n
      → IsRoot m p (record { n = n; y = 2 * d.y + 1 })
  taken b n e left =
      let up = cube_succ (2 * d.y) p in
      let down = cube_double d.y p in
      let up_twice = cube_double_succ d.y p in
      let scaled : b * p ≡ (3 * (2 * d.y) * (2 * d.y + 1) + 1) * p = ap (λ (t : ℕ). t * p) e in
      let next : cube (2 * d.y + 1 + 1) * p ≡ cube (2 * d.y + 2) * p =
        ap (λ (t : ℕ). cube t * p) (omega arith) in
      record {
        split = (grind (arith, root.split, up, down, scaled, left));
        below = (grind (arith, root.below, up_twice, next));
      }

  -- The new digit is 0.
  kept :
      (b : ℕ)
      → b ≡ 3 * (2 * d.y) * (2 * d.y + 1) + 1
      → d.n < b * p
      → IsRoot m p (record { n = d.n; y = 2 * d.y })
  kept b e short =
      let up = cube_succ (2 * d.y) p in
      let down = cube_double d.y p in
      let scaled : b * p ≡ (3 * (2 * d.y) * (2 * d.y + 1) + 1) * p = ap (λ (t : ℕ). t * p) e in
      record {
        split = (grind (arith, root.split, down));
        below = (grind (arith, root.split, up, down, scaled, short));
      }

round_IsRoot :
    (m s : ℕ) (d : Digits)
    → m < 2 ^ 64
    → d.y < 2 ^ 21
    → IsRoot m (8 * 2 ^ s) d
    → IsRoot m (2 ^ s) (cbrt_round s d) × ((cbrt_round s d).y ≤ 2 * d.y + 1)
unfolding cbrt_round
round_IsRoot m s d fits small root =
    let p = 2 ^ s in
    let pos : 0 < p = one-le-pow s 2 (omega arith) in
    let y = 2 * d.y in
    let b = next_cube y in
    let e : b ≡ 3 * y * (y + 1) + 1 = next_cube-eq y (omega (arith, small)) in
    let double : 2 * d.y % 2 ^ 64 ≡ y = omega (arith, small) in
    let rest : d.n ≤ m = omega (arith, root.split) in
    rw double (elim (Bool-cases (leb b (d.n / p))) [
      | inl one ↦
          let under : b * p ≤ d.n = (le-div_iff_mul-le pos).0 (ground (arith, one)) in
          let n : (d.n + 2 ^ 64 - b * p % 2 ^ 64) % 2 ^ 64 ≡ d.n - b * p =
            omega (arith, under, rest, fits) in
          rw (one, n) (taken m p d pos root b (d.n - b * p) e (omega (arith, under)), omega arith)
      | inr none ↦
          let over : d.n < b * p = (div-lt_iff_lt-mul pos).0 (ground (arith, none)) in
          rw none (kept m p d pos root b e over, omega arith)
    ])

-- The shift before the round
shift : (r : ℕ) → 2 ^ (3 * suc r) ≡ 8 * 2 ^ (3 * r)
shift r =
    let three : 3 * suc r ≡ 3 * r + 3 = omega arith in rw three (simp towards_suc (omega arith))

loop_IsRoot :
    (m r : ℕ) (d : Digits)
    → m < 2 ^ 64
    → (d.y + 1) * 2 ^ r ≤ 2 ^ 21
    → IsRoot m (8 * 2 ^ (3 * r)) d
    → IsRoot m 8 (cbrt_loop r d) × ((cbrt_loop r d).y < 2 ^ 21)
unfolding cbrt_loop
loop_IsRoot m zero d fits small root = (root, omega (arith, small))
loop_IsRoot m (suc r) d fits small root =
    let halves : 2 ^ suc r ≡ 2 * 2 ^ r = pow-succ' 2 r in
    let pos : 1 ≤ 2 ^ suc r = one-le-pow (suc r) 2 (omega arith) in
    let low : d.y < 2 ^ 21 = omega (arith, small, le-mul_of_pos_right (d.y + 1) pos) in
    let (root', grown) = round_IsRoot m (3 * suc r) d fits low root in
    let y = (cbrt_round (3 * suc r) d).y in
    let scaled : (y + 1) * 2 ^ r ≤ 2 * (d.y + 1) * 2 ^ r =
      mul-le-mul_right (2 ^ r) (omega (arith, grown)) in
    let same : (d.y + 1) * 2 ^ suc r ≡ 2 * (d.y + 1) * 2 ^ r = rw halves (grind arith) in
    loop_IsRoot m r (cbrt_round (3 * suc r) d) fits (omega (arith, scaled, same, small))
      (rw (shift r) at root')

-- The last digit, which the source finds behind its loop
last_digit :
    (d : Digits)
    → (if leb (next_cube (2 * d.y % 2 ^ 64)) d.n then 2 * d.y % 2 ^ 64 + 1 else 2 * d.y % 2 ^ 64)
      ≡ (cbrt_round 0 d).y
unfolding cbrt_round
last_digit d = ground arith

-- `ngtcp2_cbrt` computes the cube root of a 64-bit integer, rounded down.
pub cbrt-IsRoot : (n : ℕ) → n < 2 ^ 64 → (cube (cbrt n) ≤ n) × (n < cube (cbrt n + 1))
unfolding cbrt
cbrt-IsRoot n fits =
    let start : Digits = record { n = n; y = 0 } in
    let (root, small) =
      loop_IsRoot n 21 start fits (omega arith)
        (record { split = omega arith; below = omega (arith, fits) }) in
    let d = cbrt_loop 21 start in
    let (unit, _) = round_IsRoot n 0 d fits small root in
    rw (last_digit d) (omega (arith, unit.split), omega (arith, unit.below))
