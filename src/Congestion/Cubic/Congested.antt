-- ===== src/Congestion/Cubic/Congested.antt =====
-- The congestion events of the CUBIC controller of lib/ngtcp2_cc.c.
use zngtcp.Base.{
  ℕ, ◌+◌, ◌-◌, ◌*◌, ◌/◌, ◌^◌, min, max, Outcome, ok, ◌>>=◌, ◌>>◌, assert, ltb, leb, if◌then◌else◌,
}
use zngtcp.Congestion.{uint64_max, wrap, divide, Ack, set_pacing_rate, in_congestion_recovery}
use zngtcp.Congestion.CubeRoot.{cbrt}
use zngtcp.Congestion.Cubic.{Vars, Undo, Cubic, no_undo, cubic_reset}

-- `undo` at the start of a congestion event
unfoldable pub save_undo : Cubic → Undo
save_undo c =
    if ltb c.undo.cwnd c.cstat.cwnd
    then record { v = c.current; cwnd = c.cstat.cwnd; ssthresh = c.cstat.ssthresh }
    else c.undo

-- `cstat->ssthresh` of a congestion event
unfoldable pub loss_ssthresh : Cubic → Ack → ℕ
loss_ssthresh c ack =
    let s = c.cstat in
    let part = wrap (s.cwnd * 7) / 10 in
    let flight = wrap (s.bytes_in_flight + ack.bytes_lost) in
    let limited = min part (max c.rst.rs_delivered flight) in
    let t = if ltb (wrap (c.rst.rs_delivered * 2)) s.cwnd then limited else part in
    max t (wrap (2 * s.max_tx_udp_payload_size))

-- `w_max` of a congestion event
unfoldable pub loss_w_max : Cubic → ℕ
loss_w_max c =
    let cwnd = c.cstat.cwnd in
    max (if ltb cwnd c.current.w_max then wrap (cwnd * 17) / 20 else cwnd)
      (wrap (2 * c.cstat.max_tx_udp_payload_size))

unfoldable pub congestion_event : Cubic → ℕ → Ack → ℕ → Outcome Cubic
unfolding save_undo loss_ssthresh loss_w_max
congestion_event c sent_ts ack ts =
    let s = c.cstat in
    let w_max = loss_w_max c in
    let ssthresh = loss_ssthresh c ack in
    let reduced = (do
      assert (leb ssthresh w_max)
      k ← divide (wrap (wrap ((w_max - ssthresh) * 2 ^ 30) * 10) / 4) s.max_tx_udp_payload_size
      let v : Vars = record {
        cwnd_prior = s.cwnd;
        w_max = w_max;
        k_m = cbrt k;
        epoch_start = ts;
        w_est = ssthresh;
        app_limited_start_ts = uint64_max;
        app_limited_duration = 0;
        pending_bytes_acked = 0;
        pending_est_bytes_acked = 0;
      }
      s' ←
          set_pacing_rate
            (record s { congestion_recovery_start_ts = ts; cwnd = ssthresh; ssthresh = ssthresh })
      ok (record c { current = v; undo = save_undo c; cstat = s' })) in
    if in_congestion_recovery s sent_ts then ok c else reduced

unfoldable pub on_spurious_congestion : Cubic → Outcome Cubic
on_spurious_congestion c = do
  let s = record c.cstat { congestion_recovery_start_ts = uint64_max }
  let restored = (do
    s' ← set_pacing_rate (record s { cwnd = c.undo.cwnd; ssthresh = c.undo.ssthresh })
    ok (record c { current = c.undo.v; cstat = s' }))
  c' ← (if ltb s.cwnd c.undo.cwnd then restored else ok (record c { cstat = s }))
  ok (record c' { undo = no_undo })

unfoldable pub on_persistent_congestion : Cubic → Outcome Cubic
unfolding cubic_reset
on_persistent_congestion c = do
  c' ← cubic_reset c
  let s = c'.cstat
  s' ← set_pacing_rate (record s {
    cwnd = wrap (2 * s.max_tx_udp_payload_size);
    congestion_recovery_start_ts = uint64_max;
  })
  ok (record c' { cstat = s' })
