-- ===== src/Congestion.antt =====
-- lib/ngtcp2_cc.c: the congestion controllers, on the statistics of a connection. Integers are of 64
-- bits, and a division by 0 is a fault. The log is left out.
pub mod CubeRoot
pub mod Pacing
pub mod Reno
pub mod Cubic
pub mod Examples
use zngtcp.Base.{
  ℕ, zero, ◌+◌, ◌-◌, ◌*◌, ◌/◌, ◌%◌, ◌^◌, min, max, Bool, not, ◌&&◌, Outcome, ok, fault, ◌>>=◌, ◌>>◌,
  assert, ltb, leb, ◌==◌, if◌then◌else◌,
}

-- UINT64_MAX: no time, no sample, no limit
abbrev pub uint64_max : ℕ
uint64_max = 2 ^ 64 - 1

abbrev pub milliseconds : ℕ
milliseconds = 1000000

abbrev pub seconds : ℕ
seconds = 1000000000

-- A result is converted to `uint64_t`.
abbrev pub wrap : ℕ → ℕ
wrap n = n % 2 ^ 64

-- `a - b` on `uint64_t`
abbrev pub minus : ℕ → ℕ → ℕ
minus a b = (a + 2 ^ 64 - b) % 2 ^ 64

abbrev pub divide : ℕ → ℕ → Outcome ℕ
divide a b = if b == 0 then fault else ok (a / b)

-- The fields of `ngtcp2_conn_stat` that the controllers use
pub record ConnStat : Type 0 where
  pub smoothed_rtt : ℕ
  pub first_rtt_sample_ts : ℕ
  pub cwnd : ℕ
  pub ssthresh : ℕ
  pub congestion_recovery_start_ts : ℕ
  pub bytes_in_flight : ℕ
  pub max_tx_udp_payload_size : ℕ
  pub pacing_interval_m : ℕ
  pub send_quantum : ℕ

-- The fields of `ngtcp2_cc_ack`
pub record Ack : Type 0 where
  pub bytes_delivered : ℕ
  pub bytes_lost : ℕ
  pub pkt_delivered : ℕ
  pub largest_pkt_sent_ts : ℕ
  pub rtt : ℕ

-- The fields of `ngtcp2_cc_pkt` that the controllers use
pub record Pkt : Type 0 where
  pub pktlen : ℕ
  pub sent_ts : ℕ
  pub is_app_limited : Bool

unfoldable pub compute_initcwnd : ℕ → ℕ
compute_initcwnd max_udp_payload_size =
    let n = max (wrap (2 * max_udp_payload_size)) 14720 in min (wrap (10 * max_udp_payload_size)) n

-- What `init_pacing_rate` stores
unfoldable pub initial_pace : ConnStat → ConnStat
initial_pace s = record s {
  pacing_interval_m = max (milliseconds * 1024 * 100 / 125 / s.cwnd) 1;
  send_quantum = wrap (10 * s.max_tx_udp_payload_size);
}

unfoldable pub init_pacing_rate : ConnStat → Outcome ConnStat
init_pacing_rate s = do assert (not (s.cwnd == 0)); ok (initial_pace s)

-- What `set_pacing_rate` stores
unfoldable pub pace : ConnStat → ConnStat
pace s =
    let rtt = if s.first_rtt_sample_ts == uint64_max then milliseconds else s.smoothed_rtt in
    let interval = max (wrap (wrap (rtt * 1024) * 100) / 125 / s.cwnd) 1 in
    let quantum = min (64 * 1024) (milliseconds * 1024 / interval) in
    record s {
      pacing_interval_m = interval;
      send_quantum = max quantum (wrap (10 * s.max_tx_udp_payload_size));
    }

unfoldable pub set_pacing_rate : ConnStat → Outcome ConnStat
set_pacing_rate s = do assert (not (s.cwnd == 0)); ok (pace s)

unfoldable pub in_congestion_recovery : ConnStat → ℕ → Bool
in_congestion_recovery s sent_time =
    not (s.congestion_recovery_start_ts == uint64_max)
    && leb sent_time s.congestion_recovery_start_ts
