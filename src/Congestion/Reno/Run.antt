-- ===== src/Congestion/Reno/Run.antt =====
-- The NewReno controller of lib/ngtcp2_cc.c through all events of a connection.
pub mod Steps
use native.Mathlib.Nat.{mul-le-mul, div-mul-le_self, mod-lt}
use zngtcp.Base.{
  ℕ, zero, suc, ◌+◌, ◌*◌, ◌/◌, ◌%◌, ◌^◌, ◌≤◌, ◌<◌, ◌≡◌, refl, ◌⊎◌, max, inl, inr, List, [], ◌∷◌,
  ◌||◌, Bool-cases, Outcome, ok, ◌>>=◌, ltb, length, All, arith,
}
use zngtcp.Congestion.{
  uint64_max, ConnStat, Pkt, compute_initcwnd, initial_pace, pace, in_congestion_recovery,
}
use zngtcp.Congestion.Pacing.{
  pace-IsPaced, initial_pace-IsPaced, set_pacing_rate-eq, init_pacing_rate-eq, divide-eq,
}
use zngtcp.Congestion.Reno.{
  Reno, reno_init, on_pkt_acked, congestion_event, on_persistent_congestion, reno_reset,
}
use zngtcp.Congestion.Reno.Run.Steps.{
  Event, run, IsSmall, bound_zero, bound_suc, IsSound, step-Steps,
}

run-IsSound :
    (mss bound : ℕ) (r : Reno) (es : List Event)
    → 0 < mss
    → mss < 2 ^ 16
    → bound + 2 ^ 33 * length es < 2 ^ 63
    → All IsSmall es
    → IsSound mss bound r
    → (r' : Reno) × (run r es ≡ ok r') × IsSound mss (bound + 2 ^ 33 * length es) r'
unfolding run
run-IsSound mss bound r [] pos small room all v = (r, refl, rw (← bound_zero bound) at v)
run-IsSound mss bound r (e ∷ es) pos small room all v =
    let (r1, stepped, v1) = step-Steps mss bound pos small (omega (arith, room)) r v e all.0 in
    let (r2, ran, v2) =
      run-IsSound mss (bound + 2 ^ 33) r1 es pos small (omega (arith, room)) all.1 v1 in
    (r2, rw (stepped, ran), rw (bound_suc bound (length es)) at v2)

-- From `ngtcp2_cc_reno_init` on, with a packet size above 0 and below 2 ^ 16, the window of
-- `ngtcp2_cc_compute_initcwnd` and a slow start threshold of at least two packets, no sequence of
-- at most 2 ^ 29 acknowledgements of packets below 2 ^ 16 bytes, losses, persistent congestions and
-- resets fails an `assert` or divides by 0. The window and the bytes carried in pending_add stay at
-- or below 2 ^ 20 and 2 ^ 33 more for each event, so that neither overflows; the window and the
-- slow start threshold never fall below two packets; the pacing interval is not 0, and a burst of
-- ten packets is always allowed. Of the pacing interval no more is said: its computation may wrap
-- around for a large RTT.
pub run-reno_init :
    (s : ConnStat) (es : List Event)
    → 0 < s.max_tx_udp_payload_size
    → s.max_tx_udp_payload_size < 2 ^ 16
    → s.cwnd ≡ compute_initcwnd s.max_tx_udp_payload_size
    → 2 * s.max_tx_udp_payload_size ≤ s.ssthresh
    → length es ≤ 2 ^ 29
    → All IsSmall es
    → (r : Reno) × ((reno_init s >>= λ start. run start es) ≡ ok r)
      × IsSound s.max_tx_udp_payload_size (2 ^ 20 + 2 ^ 33 * length es) r
unfolding reno_init compute_initcwnd
run-reno_init s es pos small initial high count all =
    let mss = s.max_tx_udp_payload_size in
    let p = initial_pace-IsPaced s (omega (arith, small)) in
    let start : Reno = record { pending_add = 0; cstat = initial_pace s } in
    let sound : IsSound mss (2 ^ 20) start = record {
      same_mss = p.same_mss;
      window = omega (arith, p.same_cwnd, initial, small);
      threshold = omega (arith, p.same_ssthresh, high);
      interval = p.interval;
      quantum = p.quantum;
      window_max = omega (arith, p.same_cwnd, initial, small);
      carried_max = omega arith;
    } in
    let (r, ran, v) =
      run-IsSound mss (2 ^ 20) start es pos small (omega (arith, count)) all sound in
    (r, rw (init_pacing_rate-eq s (omega (arith, initial, pos, small)), ran), v)
