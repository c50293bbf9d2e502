-- ===== src/Congestion/Reno.antt =====
-- The NewReno controller of lib/ngtcp2_cc.c.
pub mod Run
use zngtcp.Base.{
  ℕ, ◌+◌, ◌*◌, ◌/◌, ◌%◌, ◌^◌, max, Bool, true, ◌||◌, Outcome, ok, fault, ◌>>=◌, ltb, ◌==◌,
  if◌then◌else◌,
}
use zngtcp.Congestion.{
  uint64_max, wrap, divide, ConnStat, Pkt, init_pacing_rate, set_pacing_rate,
  in_congestion_recovery,
}

-- `pending_add` of `ngtcp2_cc_reno`, and the statistics
pub record Reno : Type 0 where
  pub pending_add : ℕ
  pub cstat : ConnStat

unfoldable pub reno_init : ConnStat → Outcome Reno
reno_init cstat = do s ← init_pacing_rate cstat; ok (record { pending_add = 0; cstat = s })

unfoldable pub on_pkt_acked : Reno → Pkt → Outcome Reno
on_pkt_acked reno pkt =
    let s = reno.cstat in
    let slow_start = (do
      s' ← set_pacing_rate (record s { cwnd = wrap (s.cwnd + pkt.pktlen) })
      ok (record reno { cstat = s' })) in
    let m = wrap (s.max_tx_udp_payload_size * pkt.pktlen + reno.pending_add) in
    let avoidance = (do
      q ← divide m s.cwnd
      s' ← set_pacing_rate (record s { cwnd = wrap (s.cwnd + q) })
      ok (record { pending_add = m % s.cwnd; cstat = s' })) in
    if in_congestion_recovery s pkt.sent_ts || pkt.is_app_limited
    then ok reno
    else if ltb s.cwnd s.ssthresh
    then slow_start
    else avoidance

unfoldable pub congestion_event : Reno → ℕ → ℕ → Outcome Reno
congestion_event reno sent_ts ts =
    let s = reno.cstat in
    let cwnd = max (s.cwnd / 2) (wrap (2 * s.max_tx_udp_payload_size)) in
    let reduced = (do
      s' ←
          set_pacing_rate
            (record s { congestion_recovery_start_ts = ts; cwnd = cwnd; ssthresh = cwnd })
      ok (record { pending_add = 0; cstat = s' })) in
    if in_congestion_recovery s sent_ts then ok reno else reduced

unfoldable pub on_persistent_congestion : Reno → Outcome Reno
on_persistent_congestion reno = do
  s' ← set_pacing_rate (record reno.cstat {
    cwnd = wrap (2 * reno.cstat.max_tx_udp_payload_size);
    congestion_recovery_start_ts = uint64_max;
  })
  ok (record reno { cstat = s' })

unfoldable pub reno_reset : Reno → Outcome Reno
reno_reset reno = do s' ← init_pacing_rate reno.cstat; ok (record { pending_add = 0; cstat = s' })
