-- ===== src/Params/Idle.antt =====
-- The idle timeout that lib/ngtcp2_transport_params.c takes from a peer, in nanoseconds.
use zngtcp.Base.{ℕ, ◌-◌, ◌*◌, ◌^◌, ◌≡◌, arith, ltb, if◌then◌else◌}
use zngtcp.Params.{milliseconds}
use zngtcp.Params.Decode.{idle_timeout}

-- A timeout of `v` milliseconds is `v * 1000000` where 64 bits hold that. Above, the multiplication
-- wraps around after the value has been set to UINT64_MAX: the result is 2 ^ 64 - 1000000, the same
-- for all such `v`, and neither the timeout nor UINT64_MAX.
pub idle_timeout-eq :
    (v : ℕ)
    → idle_timeout v
      ≡ (if ltb (v * milliseconds) (2 ^ 64) then v * milliseconds else 2 ^ 64 - milliseconds)
unfolding idle_timeout
idle_timeout-eq v = ground arith
