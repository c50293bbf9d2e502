-- ===== src/Congestion/Cubic/Growth.antt =====
-- `cubic_cc_on_ack_recv` of lib/ngtcp2_cc.c.
use zngtcp.Base.{
  ℕ, suc, ◌+◌, ◌*◌, ◌/◌, min, max, Bool, false, not, ◌&&◌, ◌||◌, Outcome, ok, ◌>>=◌, ◌>>◌, assert,
  ltb, leb, ◌==◌, if◌then◌else◌,
}
use zngtcp.Congestion.{
  uint64_max, milliseconds, wrap, minus, divide, ConnStat, Ack, set_pacing_rate,
  in_congestion_recovery,
}
use zngtcp.Congestion.Cubic.{Vars, Hystart, Cubic, compute_w_cubic}

-- HyStart++, from the change of the round on
unfoldable pub hystart_round : Hystart → Ack → Bool → Hystart
hystart_round h ack round_start =
    let css = if h.css_round == 0 then 0 else suc h.css_round in
    let h' =
      (if round_start
        then record h {
          last_round_min_rtt = h.current_round_min_rtt;
          current_round_min_rtt = uint64_max;
          rtt_sample_count = 0;
          css_round = css;
        }
        else h) in
    record h' {
      current_round_min_rtt = min h'.current_round_min_rtt ack.rtt;
      rtt_sample_count = suc h'.rtt_sample_count;
    }

-- Enough samples of both rounds show that the RTT has grown.
unfoldable pub rtt_increased : Hystart → Bool
rtt_increased h =
    let thresh = max (4 * milliseconds) (min (h.last_round_min_rtt / 8) (16 * milliseconds)) in
    (leb 8 h.rtt_sample_count
      && not (h.current_round_min_rtt == uint64_max)
      && not (h.last_round_min_rtt == uint64_max))
    && leb (wrap (h.last_round_min_rtt + thresh)) h.current_round_min_rtt

-- Conservative slow start: back to slow start, or on to congestion avoidance
unfoldable pub css_step : Cubic → ℕ → Cubic
css_step c ts =
    let h = c.hs in
    let cwnd = c.cstat.cwnd in
    if ltb h.current_round_min_rtt h.css_baseline_min_rtt
    then record c { hs = record h { css_baseline_min_rtt = uint64_max; css_round = 0 } }
    else if leb 5 h.css_round
    then record c {
      current = record c.current {
        epoch_start = ts;
        w_max = cwnd;
        cwnd_prior = cwnd;
        w_est = cwnd;
      };
      cstat = record c.cstat { ssthresh = cwnd };
    }
    else c

unfoldable pub slow_start : Cubic → Ack → ℕ → Bool → Bool → Outcome Cubic
unfolding hystart_round rtt_increased css_step
slow_start c ack ts round_start is_app_limited = do
  let gain = if c.hs.css_round == 0 then ack.bytes_delivered else ack.bytes_delivered / 4
  let grown = set_pacing_rate (record c.cstat { cwnd = wrap (c.cstat.cwnd + gain) })
  s ← (if is_app_limited then ok c.cstat else grown)
  let h = hystart_round c.hs ack round_start
  let c' = record c { hs = h; cstat = s }
  let marked = record c' {
    hs = record h { css_baseline_min_rtt = h.current_round_min_rtt; css_round = 1 };
  }
  ok (if not (h.css_round == 0) then css_step c' ts else if rtt_increased h then marked else c')

-- `target` from W_cubic of the next RTT
unfoldable pub target_cwnd : ℕ → ℕ → ℕ
target_cwnd cwnd w_next =
    if ltb w_next cwnd
    then cwnd
    else if ltb (wrap (3 * cwnd)) (wrap (2 * w_next))
    then wrap (cwnd * 3) / 2
    else w_next

-- `x += bytes; x -= m * cwnd;` with `m = (bytes + x) / cwnd`, and the `assert` behind it. The result is
-- `m` and the new `x`.
unfoldable pub carry : ℕ → ℕ → ℕ → Outcome (ℕ × ℕ)
carry x bytes cwnd = do
  m ← divide (wrap (bytes + x)) cwnd
  let x' = minus (wrap (x + bytes)) (wrap (m * cwnd))
  assert (ltb x' cwnd)
  ok (m, x')

-- The end of a time in which the application had nothing to send
unfoldable pub end_app_limited : Vars → ℕ → Vars
end_app_limited v ts = if v.app_limited_start_ts == uint64_max then v else record v {
  app_limited_duration = wrap (v.app_limited_duration + minus ts v.app_limited_start_ts);
  app_limited_start_ts = uint64_max;
}

-- `w_est` after `bytes` have been acknowledged
unfoldable pub grow_estimate : Vars → ConnStat → ℕ → Outcome Vars
unfolding carry
grow_estimate v s bytes = do
  (m, left) ← carry v.pending_est_bytes_acked (wrap (bytes * s.max_tx_udp_payload_size)) s.cwnd
  let share = if ltb v.w_est v.cwnd_prior then wrap (m * 9) / 17 else m
  ok (record v { pending_est_bytes_acked = left; w_est = wrap (v.w_est + share) })

-- The window on its way to `target`
unfoldable pub grow_window : Vars → ConnStat → ℕ → Outcome (Vars × ℕ)
unfolding carry
grow_window v s target = do
  (m, left) ←
      carry v.pending_bytes_acked (wrap (minus target s.cwnd * s.max_tx_udp_payload_size)) s.cwnd
  ok (record v { pending_bytes_acked = left }, wrap (s.cwnd + m))

unfoldable pub avoidance : Cubic → Ack → ℕ → Outcome Cubic
unfolding end_app_limited grow_estimate grow_window compute_w_cubic target_cwnd
avoidance c ack ts = do
  let s = c.cstat
  let v0 = end_app_limited c.current ts
  let c0 = record c { current = v0 }
  let now = minus ts v0.app_limited_duration
  let w_cubic = compute_w_cubic c0 now
  let target = target_cwnd s.cwnd (compute_w_cubic c0 (wrap (now + s.smoothed_rtt)))
  v ← grow_estimate v0 s ack.bytes_delivered
  (v', cwnd) ← (if ltb w_cubic v.w_est then ok (v, v.w_est) else grow_window v s target)
  s' ← set_pacing_rate (record s { cwnd = cwnd })
  ok (record c { current = v'; cstat = s' })

-- A new round starts when a packet of the last one is acknowledged.
unfoldable pub next_round : Cubic → Bool → Cubic
next_round c round_start =
    if round_start
    then record c {
      next_round_delivered = c.rst.delivered;
      rst = record c.rst { is_cwnd_limited = false };
    }
    else c

unfoldable pub on_ack_recv : Cubic → Ack → ℕ → Outcome Cubic
on_ack_recv c ack ts =
    let is_app_limited = c.rst.rs_is_app_limited && not c.rst.is_cwnd_limited in
    let round_start = leb c.next_round_delivered ack.pkt_delivered in
    let c1 = next_round c round_start in
    let v = c1.current in
    let started = if v.app_limited_start_ts == uint64_max then ts else v.app_limited_start_ts in
    if ack.bytes_delivered == 0 || in_congestion_recovery c.cstat ack.largest_pkt_sent_ts
    then ok c
    else if ltb c.cstat.cwnd c.cstat.ssthresh
    then slow_start c1 ack ts round_start is_app_limited
    else if is_app_limited
    then ok (record c1 { current = record v { app_limited_start_ts = started } })
    else avoidance c1 ack ts
