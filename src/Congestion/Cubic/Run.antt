-- ===== src/Congestion/Cubic/Run.antt =====
-- Acknowledgements under the CUBIC controller of lib/ngtcp2_cc.c.
pub mod Steps
use native.Mathlib.Nat.{mul-le-mul_left, mod-lt, div-mul-le_self, mod-eq-sub-div-mul}
use zngtcp.Base.{
  ℕ, ◌+◌, ◌-◌, ◌*◌, ◌/◌, ◌%◌, ◌^◌, ◌≤◌, ◌<◌, ◌≡◌, refl, ap, ◌∙◌, ◌⊎◌, inl, inr, Bool, true, false,
  not, ◌&&◌, ◌||◌, Bool-cases, Outcome, ok, ◌>>=◌, ltb, leb, lt→ltb, ltb→lt, ◌==◌, arith,
  if◌then◌else◌,
}
use zngtcp.Congestion.{wrap, minus, ConnStat, Ack, pace, set_pacing_rate, in_congestion_recovery}
use zngtcp.Congestion.Pacing.{pace-IsPaced, set_pacing_rate-eq, divide-eq}
use zngtcp.Congestion.Cubic.{Vars, Cubic, compute_w_cubic}
use zngtcp.Congestion.Cubic.Growth.{
  hystart_round, rtt_increased, css_step, slow_start, target_cwnd, carry, end_app_limited,
  grow_estimate, grow_window, avoidance, next_round, on_ack_recv,
}
use zngtcp.Congestion.Cubic.Run.Steps.{IsAcked, Acks, slow_Acks, avoidance-Acks}

next_round-cstat : (c : Cubic) (b : Bool) → (next_round c b).cstat ≡ c.cstat
unfolding next_round
next_round-cstat c true = refl
next_round-cstat c false = refl

kept_Acks : (s : ConnStat) (ack : Ack) (t : Cubic) → 2 ≤ s.cwnd → t.cstat ≡ s → Acks s ack (ok t)
kept_Acks s ack t pos e = (
  t,
  refl,
  record {
    positive = rw e (omega (arith, pos));
    same_mss = ap (λ u. u.max_tx_udp_payload_size) e;
    threshold = inl (ap (λ u. u.ssthresh) e);
    grown = inl (rw e (omega arith));
    slow = λ h. rw e (omega arith, omega arith);
  },
)

-- With a window of at least 2 and below 2 ^ 63 bytes, a packet size below 2 ^ 16 and less than 2 ^
-- 62 bytes delivered, an acknowledgement fails no `assert` and divides by no 0, and the window
-- stays positive. The window grows or becomes the estimate of a NewReno window; the slow start
-- threshold stays or becomes the window; below the threshold the window does not shrink and grows
-- by no more bytes than are acknowledged. Nothing is said of how much it grows in congestion
-- avoidance.
pub on_ack_recv-IsAcked :
    (c : Cubic) (ack : Ack) (ts : ℕ)
    → 2 ≤ c.cstat.cwnd
    → c.cstat.cwnd < 2 ^ 63
    → ack.bytes_delivered < 2 ^ 62
    → c.cstat.max_tx_udp_payload_size < 2 ^ 16
    → (t : Cubic) × (on_ack_recv c ack ts ≡ ok t) × IsAcked c.cstat ack t
unfolding on_ack_recv next_round
on_ack_recv-IsAcked c ack ts pos room few small =
    let limited = c.rst.rs_is_app_limited && not c.rst.is_cwnd_limited in
    let start = leb c.next_round_delivered ack.pkt_delivered in
    let c1 = next_round c start in
    let e : c1.cstat ≡ c.cstat = next_round-cstat c start in
    let pos1 : 2 ≤ c1.cstat.cwnd = rw e pos in
    let room1 : c1.cstat.cwnd < 2 ^ 63 = rw e room in
    let small1 : c1.cstat.max_tx_udp_payload_size < 2 ^ 16 = rw e small in
    elim (Bool-cases
      (ack.bytes_delivered == 0 || in_congestion_recovery c.cstat ack.largest_pkt_sent_ts)) [
        | inl ignored ↦ rw ignored (kept_Acks c.cstat ack c pos refl)
        | inr counted ↦ rw counted (elim (Bool-cases (ltb c.cstat.cwnd c.cstat.ssthresh)) [
          | inl slow ↦ rw slow (rw e at (slow_Acks c1 ack ts pos1 room1 few small1 start limited))
          | inr late ↦ rw late (elim (Bool-cases limited) [
            | inl idle ↦ rw idle (kept_Acks c.cstat ack _ pos e)
            | inr busy ↦ rw busy (
                rw e at
                  (avoidance-Acks c1 ack ts pos1 room1 few small1 (rw e (ground (arith, late)))))
          ])
        ])
      ]
