-- ===== src/Congestion/Pacing.antt =====
-- The pacing rate of lib/ngtcp2_cc.c: all that a change of it keeps, and what it sets.
use zngtcp.Base.{ℕ, ◌*◌, ◌/◌, ◌^◌, ◌≤◌, ◌<◌, ◌≡◌, refl, ok, arith}
use zngtcp.Congestion.{divide, ConnStat, initial_pace, init_pacing_rate, pace, set_pacing_rate}

-- `t` is `s` with a pacing rate.
pub record IsPaced (s t : ConnStat) : Type 0 where
  pub same_cwnd : t.cwnd ≡ s.cwnd
  pub same_ssthresh : t.ssthresh ≡ s.ssthresh
  pub same_mss : t.max_tx_udp_payload_size ≡ s.max_tx_udp_payload_size
  pub same_recovery : t.congestion_recovery_start_ts ≡ s.congestion_recovery_start_ts
  pub interval : 1 ≤ t.pacing_interval_m
  pub quantum : 10 * s.max_tx_udp_payload_size ≤ t.send_quantum

pub pace-IsPaced : (s : ConnStat) → s.max_tx_udp_payload_size < 2 ^ 32 → IsPaced s (pace s)
unfolding pace
pace-IsPaced s small = record {
  same_cwnd = refl;
  same_ssthresh = refl;
  same_mss = refl;
  same_recovery = refl;
  interval = omega arith;
  quantum = omega (arith, small);
}

pub initial_pace-IsPaced :
    (s : ConnStat) → s.max_tx_udp_payload_size < 2 ^ 32 → IsPaced s (initial_pace s)
unfolding initial_pace
initial_pace-IsPaced s small = record {
  same_cwnd = refl;
  same_ssthresh = refl;
  same_mss = refl;
  same_recovery = refl;
  interval = omega arith;
  quantum = omega (arith, small);
}

pub set_pacing_rate-eq : (s : ConnStat) → 0 < s.cwnd → set_pacing_rate s ≡ ok (pace s)
unfolding set_pacing_rate
set_pacing_rate-eq s pos = ground (arith, pos)

pub init_pacing_rate-eq : (s : ConnStat) → 0 < s.cwnd → init_pacing_rate s ≡ ok (initial_pace s)
unfolding init_pacing_rate
init_pacing_rate-eq s pos = ground (arith, pos)

pub divide-eq : (a b : ℕ) → 0 < b → divide a b ≡ ok (a / b)
divide-eq a b pos = ground (arith, pos)
