-- ===== src/RateLimit/Examples.antt =====
-- A limiter of 10 tokens and 4 a second, asked for 12 after half a second and for 3 a second later.
use zngtcp.Base.{ℕ, ◌+◌, ◌-◌, ◌*◌, ◌≤◌, ◌<◌, ◌≡◌, ◌⊎◌, List, [], ◌∷◌, Bool, true, false, ok, arith}
use zngtcp.RateLimit.{seconds, RateLimiter, init, drain}
use zngtcp.RateLimit.Bucket.{IsValid, credit, refilled, drain-refilled}
use zngtcp.RateLimit.Rate.{Request, run, run-init}

abbrev half_empty : RateLimiter
half_empty = record { burst = 10; rate = 4; tokens = 5; carry = 700000000; ts = 1000 }

half_empty-IsValid : IsValid half_empty
half_empty-IsValid = record {
  tokens_le = omega arith;
  carry_lt = omega arith;
  full = λ e. absurd (omega (arith, e));
}

abbrev requests : List Request
requests = record { n = 12; ts = 500000000 } ∷ record { n = 3; ts = 1500000000 } ∷ []

drain-refilled_example :
    (new : RateLimiter) × (done : Bool) × (drain half_empty 6 200001000 ≡ ok (new, done))
    × (new.burst ≡ 10)
    × (new.rate ≡ 4)
    × (new.ts ≡ 200001000)
    × IsValid new
    × (((done ≡ true) × (credit new + 6 * seconds ≡ refilled half_empty (200001000 - 1000)))
        ⊎ ((done ≡ false)
            × (refilled half_empty (200001000 - 1000) < 6 * seconds)
            × (credit new ≡ refilled half_empty (200001000 - 1000))))
drain-refilled_example =
    drain-refilled half_empty 6 200001000 half_empty-IsValid (omega arith) (omega arith)

run-init_example :
    (end : RateLimiter) × (taken : ℕ) × (run (init 10 4 0) requests ≡ ok (end, taken))
    × (taken * seconds ≤ 10 * seconds + 4 * (end.ts - 0))
run-init_example = run-init 10 4 0 requests (omega arith) (omega arith, (omega arith, tt))
