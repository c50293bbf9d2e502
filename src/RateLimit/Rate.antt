-- ===== src/RateLimit/Rate.antt =====
-- How much a sequence of calls of `ngtcp2_ratelim_drain` (lib/ngtcp2_ratelim.c) can take.
use zngtcp.Base.{
  ℕ, ◌+◌, ◌-◌, ◌*◌, ◌≤◌, ◌<◌, ◌≡◌, refl, sym, ap, ◌∙◌, List, [], ◌∷◌, Bool, true, false, Outcome,
  ok, ◌>>=◌, inl, inr, arith, if◌then◌else◌, ◌⊎◌,
}
use zngtcp.RateLimit.{seconds, uint64_max, RateLimiter, init, drain}
use zngtcp.RateLimit.Bucket.{IsValid, credit, refilled, drain-refilled}

-- A call: `n` and the time.
pub record Request : Type 0 where
  pub n : ℕ
  pub ts : ℕ

-- The calls one after another, and the tokens that those take which return 0.
unfoldable pub run : RateLimiter → List Request → Outcome (RateLimiter × ℕ)
run rlim [] = ok (rlim, 0)
run rlim (r ∷ rs) = do
  (rlim', done) ← drain rlim r.n r.ts
  (end, taken) ← run rlim' rs
  ok (end, (if done then r.n else 0) + taken)

-- Time does not run backwards.
abbrev pub IsTimely : ℕ → List Request → Type 0
IsTimely ts [] = Unit
IsTimely ts (r ∷ rs) = (ts ≤ r.ts) × IsTimely r.ts rs

step_bound :
    (rlim new : RateLimiter) (n ts : ℕ) (done : Bool)
    → ((done ≡ true) × (credit new + n * seconds ≡ refilled rlim (ts - rlim.ts)))
      ⊎ ((done ≡ false)
          × (refilled rlim (ts - rlim.ts) < n * seconds)
          × (credit new ≡ refilled rlim (ts - rlim.ts)))
    → (if done then n else 0) * seconds + credit new ≤ credit rlim + rlim.rate * (ts - rlim.ts)
step_bound rlim new n ts done (inl (e, c)) = ground (arith, e, c)
step_bound rlim new n ts done (inr (e, _, c)) = ground (arith, e, c)

over_sum : (rate d e : ℕ) → rate * (d + e) ≡ rate * d + rate * e
over_sum rate d e = omega arith

two_times : (rate a b c : ℕ) → a ≤ b → b ≤ c → rate * (b - a) + rate * (c - b) ≡ rate * (c - a)
two_times rate a b c h k =
    let sum : b - a + (c - b) ≡ c - a = omega (arith, h, k) in
    sym (over_sum rate (b - a) (c - b)) ∙ ap (λ d. rate * d) sum

run-bound :
    (rlim : RateLimiter) (rs : List Request)
    → IsValid rlim
    → rlim.burst * seconds ≤ uint64_max
    → IsTimely rlim.ts rs
    → (end : RateLimiter) × (taken : ℕ) × (run rlim rs ≡ ok (end, taken))
      × (rlim.ts ≤ end.ts)
      × (taken * seconds + credit end ≤ credit rlim + rlim.rate * (end.ts - rlim.ts))
unfolding run
run-bound rlim [] v small h = (rlim, 0, refl, omega arith, omega arith)
run-bound rlim (r ∷ rs) v small (h, hs) =
    let (new, done, drained, burst, rate, at, valid, paid) =
      drain-refilled rlim r.n r.ts v small h in
    let small' : new.burst * seconds ≤ uint64_max = rw burst small in
    let timely : IsTimely new.ts rs = rw at hs in
    let (end, taken, ran, later, bound) = run-bound new rs valid small' timely in
    let step = step_bound rlim new r.n r.ts done paid in
    let time = two_times rlim.rate rlim.ts r.ts end.ts h (ground (arith, later, at)) in
    let bound' : taken * seconds + credit end ≤ credit new + rlim.rate * (end.ts - r.ts) =
      rw (rate, at) at bound in
    (
      end,
      (if done then r.n else 0) + taken,
      rw (drained, ran) refl,
      omega (arith, later, at, h),
      omega (arith, step, bound', time),
    )

-- From a limiter as `ngtcp2_ratelim_init` sets it up, with a burst whose product with 10 ^ 9 is at
-- most 2 ^ 64 - 1, any sequence of calls in the order of time takes at most the burst and what the
-- rate gives in the time from the set-up to the last call.
pub run-init :
    (burst rate ts : ℕ) (rs : List Request)
    → burst * seconds ≤ uint64_max
    → IsTimely ts rs
    → (end : RateLimiter) × (taken : ℕ) × (run (init burst rate ts) rs ≡ ok (end, taken))
      × (taken * seconds ≤ burst * seconds + rate * (end.ts - ts))
unfolding init
run-init burst rate ts rs small h =
    let start : RateLimiter = record {
      burst = burst;
      rate = rate;
      tokens = burst;
      carry = 0;
      ts = ts;
    } in
    let valid : IsValid start = record {
      tokens_le = omega arith;
      carry_lt = omega arith;
      full = λ e. refl;
    } in
    let (end, taken, ran, later, bound) = run-bound start rs valid small h in
    (end, taken, ran, unfold credit in omega (arith, bound))
