-- ===== src/RateLimit.antt =====
-- lib/ngtcp2_ratelim.c: a token bucket on 64-bit integers.
pub mod Bucket
pub mod Rate
pub mod Examples
use zngtcp.Base.{
  ℕ, ◌+◌, ◌-◌, ◌*◌, ◌/◌, ◌%◌, ◌^◌, Bool, true, false, ◌&&◌, Outcome, ok, ◌>>=◌, ◌>>◌, assert, ltb,
  leb, ◌==◌, if◌then◌else◌, List, [], ◌∷◌,
}

-- NGTCP2_SECONDS, in nanoseconds, and UINT64_MAX
abbrev pub seconds : ℕ
seconds = 1000000000

abbrev pub uint64_max : ℕ
uint64_max = 2 ^ 64 - 1

pub record RateLimiter : Type 0 where
  pub burst : ℕ
  pub rate : ℕ
  pub tokens : ℕ
  pub carry : ℕ
  pub ts : ℕ

unfoldable pub init : ℕ → ℕ → ℕ → RateLimiter
init burst rate ts = record { burst = burst; rate = rate; tokens = burst; carry = 0; ts = ts }

-- `gain`, in tokens per nanosecond, of the time `d` since the last call.
unfoldable pub gain : RateLimiter → ℕ → ℕ
gain rlim d =
    if ltb ((uint64_max - rlim.carry) / d) rlim.rate then uint64_max else rlim.rate * d + rlim.carry

-- From `gps = gain / NGTCP2_SECONDS` on.
unfoldable pub add : RateLimiter → ℕ → ℕ → RateLimiter
add rlim ts gain =
    let gps = gain / seconds in
    if ltb gps rlim.burst && ltb rlim.tokens (rlim.burst - gps)
    then record rlim { ts = ts; tokens = rlim.tokens + gps; carry = gain % seconds }
    else record rlim { ts = ts; tokens = rlim.burst; carry = 0 }

unfoldable pub update : RateLimiter → ℕ → Outcome RateLimiter
unfolding gain add
update rlim ts = do
  assert (leb rlim.ts ts)
  (if ts == rlim.ts then ok rlim else ok (add rlim ts (gain rlim (ts - rlim.ts))))

-- `true` stands for 0, and `false` for -1.
unfoldable pub drain : RateLimiter → ℕ → ℕ → Outcome (RateLimiter × Bool)
unfolding update
drain rlim n ts = do
  updated ← update rlim ts
  (if ltb updated.tokens n
      then ok (updated, false)
      else ok (record updated { tokens = updated.tokens - n }, true))
