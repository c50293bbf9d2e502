-- ===== src/RateLimit/Bucket.antt =====
-- The token bucket of lib/ngtcp2_ratelim.c without rounding and without an upper bound of integers.
use zngtcp.Base.{
  ℕ, ◌+◌, ◌-◌, ◌*◌, ◌/◌, ◌≤◌, ◌<◌, min, ◌≡◌, refl, sym, ◌∙◌, ◌⊎◌, inl, inr, Bool, true, false,
  Bool-cases, ◌&&◌, ok, ltb, ◌==◌, arith,
}
use native.Mathlib.Nat.{div-lt_iff_lt-mul, le-div_iff_mul-le}
use zngtcp.RateLimit.{seconds, uint64_max, RateLimiter, gain, add, update, drain}

-- What the bucket holds, in tokens per nanosecond.
unfoldable pub credit : RateLimiter → ℕ
credit rlim = rlim.tokens * seconds + rlim.carry

pub record IsValid (rlim : RateLimiter) : Type 0 where
  pub tokens_le : rlim.tokens ≤ rlim.burst
  pub carry_lt : rlim.carry < seconds
  pub full : rlim.tokens ≡ rlim.burst → rlim.carry ≡ 0

gain-min :
    (rlim : RateLimiter) (d : ℕ)
    → 1 ≤ d
    → rlim.carry < seconds
    → gain rlim d ≡ min uint64_max (rlim.rate * d + rlim.carry)
unfolding gain
gain-min rlim d h c =
    let room = uint64_max - rlim.carry in
    elim (Bool-cases (ltb (room / d) rlim.rate)) [
      | inl over ↦
          let more : room < rlim.rate * d = (div-lt_iff_lt-mul h).0 (ground (arith, over)) in
          ground (arith, over, more, c)
      | inr under ↦
          let less : rlim.rate * d ≤ room = (le-div_iff_mul-le h).0 (ground (arith, under)) in
          ground (arith, under, less, c)
    ]

-- The exact bucket after a time `d` without a call.
abbrev pub refilled : RateLimiter → ℕ → ℕ
refilled rlim d = min (rlim.burst * seconds) (credit rlim + rlim.rate * d)

-- The bucket after an update, which changes nothing else.
abbrev pub Updated : RateLimiter → ℕ → ℕ → RateLimiter → Type 0
Updated rlim ts amount new =
    (new.burst ≡ rlim.burst)
    × (new.rate ≡ rlim.rate)
    × (new.ts ≡ ts)
    × IsValid new
    × (credit new ≡ amount)

add-Updated :
    (rlim : RateLimiter) (ts earned : ℕ)
    → IsValid rlim
    → rlim.burst * seconds ≤ uint64_max
    → Updated rlim ts
        (min (rlim.burst * seconds) (rlim.tokens * seconds + min uint64_max (earned + rlim.carry)))
        (add rlim ts (min uint64_max (earned + rlim.carry)))
unfolding add credit
add-Updated rlim ts earned v small =
    let gain = min uint64_max (earned + rlim.carry) in
    elim (Bool-cases
      (ltb (gain / seconds) rlim.burst && ltb rlim.tokens (rlim.burst - gain / seconds))) [
        | inl some_room ↦ rw some_room (
          refl,
          refl,
          refl,
          record {
            tokens_le = ground (arith, some_room);
            carry_lt = ground arith;
            full = λ e. absurd (ground (arith, some_room, e));
          },
          ground (arith, some_room),
        )
        | inr no_room ↦ rw no_room (
          refl,
          refl,
          refl,
          record { tokens_le = omega arith; carry_lt = omega arith; full = λ e. refl },
          ground (arith, no_room, v.tokens_le),
        )
      ]

credit_le : (rlim : RateLimiter) → IsValid rlim → credit rlim ≤ rlim.burst * seconds
unfolding credit
credit_le rlim v = elim (Bool-cases (rlim.tokens == rlim.burst)) [
  | inl all ↦ let e : rlim.tokens ≡ rlim.burst = ground (arith, all) in omega (arith, e, v.full e)
  | inr some ↦
      let less : rlim.tokens < rlim.burst = ground (arith, some, v.tokens_le) in
      omega (arith, less, v.carry_lt)
]

same_credit :
    (rlim : RateLimiter) (ts : ℕ)
    → IsValid rlim
    → ts ≡ rlim.ts
    → credit rlim ≡ refilled rlim (ts - rlim.ts)
same_credit rlim ts v e = ground (arith, e, credit_le rlim v)

exact_amount :
    (rlim : RateLimiter) (d : ℕ)
    → rlim.burst * seconds ≤ uint64_max
    → min
        (rlim.burst * seconds)
        (rlim.tokens * seconds + min uint64_max (rlim.rate * d + rlim.carry))
      ≡ refilled rlim d
unfolding credit
exact_amount rlim d small = omega (arith, small)

drained-IsValid :
    (rlim : RateLimiter) (n : ℕ)
    → IsValid rlim
    → n ≤ rlim.tokens
    → IsValid (record rlim { tokens = rlim.tokens - n })
drained-IsValid rlim n v h = record {
  tokens_le = omega (arith, v.tokens_le);
  carry_lt = v.carry_lt;
  full = λ e. v.full (omega (arith, e, h, v.tokens_le));
}

update-Updated :
    (rlim : RateLimiter) (ts : ℕ)
    → IsValid rlim
    → rlim.burst * seconds ≤ uint64_max
    → rlim.ts ≤ ts
    → (new : RateLimiter) × (update rlim ts ≡ ok new)
      × Updated rlim ts (refilled rlim (ts - rlim.ts)) new
unfolding update
update-Updated rlim ts v small h = elim (Bool-cases (ts == rlim.ts)) [
  | inl same ↦
      let e : ts ≡ rlim.ts = ground (arith, same) in
      (rlim, ground (arith, same, h), (refl, refl, sym e, v, same_credit rlim ts v e))
  | inr later ↦
      let d = ts - rlim.ts in
      let passed : 1 ≤ d = ground (arith, later, h) in
      let amount = min uint64_max (rlim.rate * d + rlim.carry) in
      let (burst, rate, at, valid, holds) = add-Updated rlim ts (rlim.rate * d) v small in
      (
        add rlim ts amount,
        ground (arith, later, h, gain-min rlim d passed v.carry_lt),
        (burst, rate, at, valid, holds ∙ exact_amount rlim d small),
      )
]

-- A drain returns 0 exactly if the bucket without rounding holds `n` tokens, and takes them out of
-- it; it returns -1 and takes nothing if there are fewer. The time must not run backwards, and the
-- burst, in tokens per nanosecond, must be a 64-bit integer; the state stays valid.
pub drain-refilled :
    (rlim : RateLimiter) (n ts : ℕ)
    → IsValid rlim
    → rlim.burst * seconds ≤ uint64_max
    → rlim.ts ≤ ts
    → (new : RateLimiter) × (done : Bool) × (drain rlim n ts ≡ ok (new, done))
      × (new.burst ≡ rlim.burst)
      × (new.rate ≡ rlim.rate)
      × (new.ts ≡ ts)
      × IsValid new
      × (((done ≡ true) × (credit new + n * seconds ≡ refilled rlim (ts - rlim.ts)))
          ⊎ ((done ≡ false)
              × (refilled rlim (ts - rlim.ts) < n * seconds)
              × (credit new ≡ refilled rlim (ts - rlim.ts))))
unfolding drain
drain-refilled rlim n ts v small h =
    let (new, updated, (burst, rate, at, valid, holds)) = update-Updated rlim ts v small h in
    elim (Bool-cases (ltb new.tokens n)) [
      | inl few ↦ (
        new,
        false,
        ground (arith, updated, few),
        burst,
        rate,
        at,
        valid,
        inr (refl, unfold credit in ground (arith, few, holds, valid.carry_lt), holds),
      )
      | inr enough ↦
          let le : n ≤ new.tokens = ground (arith, enough) in
          (
            record new { tokens = new.tokens - n },
            true,
            ground (arith, updated, enough),
            burst,
            rate,
            at,
            drained-IsValid new n valid le,
            inl (refl, unfold credit in omega (arith, le, holds)),
          )
    ]
