-- ===== src/Congestion/Cubic.antt =====
-- The CUBIC controller of lib/ngtcp2_cc.c, with HyStart++.
pub mod Loss
pub mod Run
pub mod Congested
pub mod Growth
use zngtcp.Base.{
  ℕ, suc, ◌+◌, ◌-◌, ◌*◌, ◌/◌, ◌%◌, ◌^◌, min, max, Bool, true, false, not, ◌&&◌, ◌||◌, Outcome, ok,
  fault, ◌>>=◌, ◌>>◌, assert, ltb, leb, ◌==◌, if◌then◌else◌,
}
use zngtcp.Congestion.{
  uint64_max, milliseconds, seconds, wrap, minus, divide, ConnStat, Ack, init_pacing_rate,
  set_pacing_rate, in_congestion_recovery,
}
use zngtcp.Congestion.CubeRoot.{cbrt}

-- `ngtcp2_cubic_vars`
pub record Vars : Type 0 where
  pub cwnd_prior : ℕ
  pub w_max : ℕ
  pub k_m : ℕ
  pub epoch_start : ℕ
  pub w_est : ℕ
  pub app_limited_start_ts : ℕ
  pub app_limited_duration : ℕ
  pub pending_bytes_acked : ℕ
  pub pending_est_bytes_acked : ℕ

-- The field `undo` of `ngtcp2_cc_cubic`
pub record Undo : Type 0 where
  pub v : Vars
  pub cwnd : ℕ
  pub ssthresh : ℕ

-- The field `hs` of `ngtcp2_cc_cubic`
pub record Hystart : Type 0 where
  pub current_round_min_rtt : ℕ
  pub last_round_min_rtt : ℕ
  pub curr_rtt : ℕ
  pub rtt_sample_count : ℕ
  pub css_baseline_min_rtt : ℕ
  pub css_round : ℕ

-- The fields of `ngtcp2_rst` that the controller uses
pub record Rst : Type 0 where
  pub rs_delivered : ℕ
  pub rs_is_app_limited : Bool
  pub delivered : ℕ
  pub is_cwnd_limited : Bool

-- `ngtcp2_cc_cubic`, with what its pointers point to
pub record Cubic : Type 0 where
  pub rst : Rst
  pub current : Vars
  pub undo : Undo
  pub hs : Hystart
  pub next_round_delivered : ℕ
  pub cstat : ConnStat

abbrev pub vars_reset : Vars
vars_reset = record {
  cwnd_prior = 0;
  w_max = 0;
  k_m = 0;
  epoch_start = uint64_max;
  w_est = 0;
  app_limited_start_ts = uint64_max;
  app_limited_duration = 0;
  pending_bytes_acked = 0;
  pending_est_bytes_acked = 0;
}

abbrev pub no_undo : Undo
no_undo = record { v = vars_reset; cwnd = 0; ssthresh = 0 }

unfoldable pub cubic_reset : Cubic → Outcome Cubic
cubic_reset c = do
  s ← init_pacing_rate c.cstat
  ok (record c {
    current = vars_reset;
    undo = no_undo;
    hs = record {
      current_round_min_rtt = uint64_max;
      last_round_min_rtt = uint64_max;
      curr_rtt = uint64_max;
      rtt_sample_count = 0;
      css_baseline_min_rtt = uint64_max;
      css_round = 0;
    };
    next_round_delivered = 0;
    cstat = s;
  })

unfoldable pub compute_w_cubic : Cubic → ℕ → ℕ
compute_w_cubic c ts =
    let v = c.current in
    let tx_m = wrap (minus ts v.epoch_start * 1024) / seconds in
    let neg = ltb tx_m v.k_m in
    let apart = if neg then v.k_m - tx_m else tx_m - v.k_m in
    let d = min apart (3600 * 1024) in
    let delta =
      wrap (wrap (d * d / 1024 * d / 1024 * c.cstat.max_tx_udp_payload_size) * 4) / 10 / 1024 in
    if neg then (if ltb v.w_max delta then 0 else v.w_max - delta) else wrap (v.w_max + delta)
