-- ===== src/Congestion/Cubic/Loss.antt =====
-- Losses and spurious losses under the CUBIC controller of lib/ngtcp2_cc.c.
use native.Mathlib.Nat.{div-le_self}
use zngtcp.Base.{
  ℕ, ◌+◌, ◌-◌, ◌*◌, ◌/◌, ◌^◌, ◌≤◌, ◌<◌, ◌≡◌, refl, ap, ◌∙◌, max, true, false, ok, ◌>>=◌, leb,
  lt→ltb, arith,
}
use zngtcp.Congestion.{uint64_max, wrap, ConnStat, Ack, pace, in_congestion_recovery}
use zngtcp.Congestion.CubeRoot.{cbrt, cube, cbrt-IsRoot}
use zngtcp.Congestion.Pacing.{pace-IsPaced, set_pacing_rate-eq, divide-eq}
use zngtcp.Congestion.Cubic.{Undo, Cubic, no_undo}
use zngtcp.Congestion.Cubic.Congested.{
  save_undo, loss_ssthresh, loss_w_max, congestion_event, on_spurious_congestion,
}

-- A state in which a loss is taken into account.
pub record IsOpen (c : Cubic) (sent_ts : ℕ) : Type 0 where
  pub mss_pos : 0 < c.cstat.max_tx_udp_payload_size
  pub mss_max : c.cstat.max_tx_udp_payload_size < 2 ^ 16
  pub window : 2 * c.cstat.max_tx_udp_payload_size ≤ c.cstat.cwnd
  pub window_max : c.cstat.cwnd < 2 ^ 58
  pub counted : in_congestion_recovery c.cstat sent_ts ≡ false

-- The distance that the window has to grow to `w_max`, as the radicand of K
abbrev pub radicand : ℕ → ℕ → ℕ → ℕ
radicand w_max cwnd mss = (w_max - cwnd) * 2 ^ 30 * 10 / 4 / mss

-- `t` is the state after a loss in the state `c`.
pub record IsReduced (c t : Cubic) (ts : ℕ) : Type 0 where
  pub threshold : t.cstat.ssthresh ≡ t.cstat.cwnd
  pub least : 2 * c.cstat.max_tx_udp_payload_size ≤ t.cstat.cwnd
  pub most : t.cstat.cwnd ≤ max (c.cstat.cwnd * 7 / 10) (2 * c.cstat.max_tx_udp_payload_size)
  pub recovery : t.cstat.congestion_recovery_start_ts ≡ ts
  pub target : t.cstat.cwnd ≤ t.current.w_max
  pub target_max : t.current.w_max ≤ c.cstat.cwnd
  pub estimate : t.current.w_est ≡ t.cstat.cwnd
  pub root :
      t.current.w_max - t.cstat.cwnd < 2 ^ 30
      → (cube t.current.k_m ≤ radicand t.current.w_max t.cstat.cwnd c.cstat.max_tx_udp_payload_size)
        × (radicand t.current.w_max t.cstat.cwnd c.cstat.max_tx_udp_payload_size
            < cube (t.current.k_m + 1))

module _ (c : Cubic) (sent_ts : ℕ) (o : IsOpen c sent_ts) (ack : Ack) (ts : ℕ) where
  threshold_least : 2 * c.cstat.max_tx_udp_payload_size ≤ loss_ssthresh c ack
  unfolding loss_ssthresh
  threshold_least = omega (arith, o.mss_max)

  threshold_most :
      loss_ssthresh c ack ≤ max (c.cstat.cwnd * 7 / 10) (2 * c.cstat.max_tx_udp_payload_size)
  unfolding loss_ssthresh
  threshold_most = ground (arith, o.mss_max, o.window_max)

  threshold-le : loss_ssthresh c ack ≤ loss_w_max c
  unfolding loss_w_max
  threshold-le = ground (arith, threshold_most, o.mss_max, o.window_max)

  target_most : loss_w_max c ≤ c.cstat.cwnd
  unfolding loss_w_max
  target_most = ground (arith, o.mss_max, o.window, o.window_max)

  -- What is passed to `ngtcp2_cbrt`
  loss_radicand : ℕ
  loss_radicand =
      wrap (wrap ((loss_w_max c - loss_ssthresh c ack) * 2 ^ 30) * 10)
      / 4
      / c.cstat.max_tx_udp_payload_size

  cut : ConnStat
  cut = record c.cstat {
    congestion_recovery_start_ts = ts;
    cwnd = loss_ssthresh c ack;
    ssthresh = loss_ssthresh c ack;
  }

  reduced : Cubic
  unfolding loss_radicand cut
  reduced = record c {
    current = record {
      cwnd_prior = c.cstat.cwnd;
      w_max = loss_w_max c;
      k_m = cbrt loss_radicand;
      epoch_start = ts;
      w_est = loss_ssthresh c ack;
      app_limited_start_ts = uint64_max;
      app_limited_duration = 0;
      pending_bytes_acked = 0;
      pending_est_bytes_acked = 0;
    };
    undo = save_undo c;
    cstat = pace cut;
  }

  event-reduced : congestion_event c sent_ts ack ts ≡ ok reduced
  unfolding congestion_event reduced
  event-reduced =
      let fits : leb (loss_ssthresh c ack) (loss_w_max c) ≡ true = ground (arith, threshold-le) in
      let some : 0 < cut.cwnd = unfold cut in omega (arith, threshold_least, o.mss_pos) in
      rw (
        o.counted,
        fits,
        divide-eq (wrap (wrap ((loss_w_max c - loss_ssthresh c ack) * 2 ^ 30) * 10) / 4)
            c.cstat.max_tx_udp_payload_size o.mss_pos,
        set_pacing_rate-eq cut some,
      )

  radicand-eq :
      loss_w_max c - loss_ssthresh c ack < 2 ^ 30
      → loss_radicand
        ≡ radicand (loss_w_max c) (loss_ssthresh c ack) c.cstat.max_tx_udp_payload_size
  unfolding loss_radicand
  radicand-eq small =
      let exact : wrap (wrap ((loss_w_max c - loss_ssthresh c ack) * 2 ^ 30) * 10)
          ≡ (loss_w_max c - loss_ssthresh c ack) * 2 ^ 30 * 10 =
        omega (arith, small) in
      ap (λ (t : ℕ). t / 4 / c.cstat.max_tx_udp_payload_size) exact

  radicand_max : loss_radicand < 2 ^ 64
  unfolding loss_radicand
  radicand_max = omega (
    arith,
    div-le_self (wrap (wrap ((loss_w_max c - loss_ssthresh c ack) * 2 ^ 30) * 10) / 4)
        c.cstat.max_tx_udp_payload_size,
  )

  reduced-IsReduced : IsReduced c reduced ts
  unfolding reduced
  reduced-IsReduced =
      let p = pace-IsPaced cut (unfold cut in omega (arith, o.mss_max)) in
      let w = p.same_cwnd in
      record {
        threshold = unfold cut in omega (arith, w, p.same_ssthresh);
        least = unfold cut in omega (arith, w, threshold_least);
        most = unfold cut in omega (arith, w, threshold_most);
        recovery = unfold cut in p.same_recovery;
        target = unfold cut in omega (arith, w, threshold-le);
        target_max = target_most;
        estimate = unfold cut in omega (arith, w);
        root = λ small.
            let same : (pace cut).cwnd ≡ loss_ssthresh c ack = unfold cut in w in
            rw (same, ← radicand-eq (rw same at small)) (cbrt-IsRoot loss_radicand radicand_max);
      }

-- In a state whose packet size is above 0 and below 2 ^ 16 and whose window is at least two packets
-- and below 2 ^ 58, a loss of a packet that is sent after the last reduction of the window sets it
-- to at most the larger of two packets and 7/10 of what it was, and never to less than two packets;
-- no `assert` fails. The window that CUBIC is to reach again is between the new and the old one,
-- and K is the cube root of its scaled distance, rounded down, where that distance is below 2 ^ 30.
pub congestion_event-IsReduced :
    (c : Cubic) (sent_ts : ℕ) (ack : Ack) (ts : ℕ)
    → IsOpen c sent_ts
    → (t : Cubic) × (congestion_event c sent_ts ack ts ≡ ok t) × IsReduced c t ts
congestion_event-IsReduced c sent_ts ack ts o = (
  reduced c sent_ts o ack ts,
  event-reduced c sent_ts o ack ts,
  reduced-IsReduced c sent_ts o ack ts,
)

-- What a spurious loss gives back
pub record IsRestored (c t : Cubic) : Type 0 where
  pub window : t.cstat.cwnd ≡ c.cstat.cwnd
  pub threshold : t.cstat.ssthresh ≡ c.cstat.ssthresh
  pub vars : t.current ≡ c.current
  pub recovery : t.cstat.congestion_recovery_start_ts ≡ uint64_max
  pub undo : t.undo ≡ no_undo

-- The statistics with the window that is remembered
abbrev undone : Cubic → ConnStat
undone t = record t.cstat {
  congestion_recovery_start_ts = uint64_max;
  cwnd = t.undo.cwnd;
  ssthresh = t.undo.ssthresh;
}

abbrev restored : Cubic → Cubic
restored t = record t { current = t.undo.v; undo = no_undo; cstat = pace (undone t) }

on_spurious-restored :
    (t : Cubic)
    → t.cstat.cwnd < t.undo.cwnd
    → 0 < t.undo.cwnd
    → on_spurious_congestion t ≡ ok (restored t)
unfolding on_spurious_congestion
on_spurious-restored t lower pos =
    rw (lt→ltb t.cstat.cwnd t.undo.cwnd lower, set_pacing_rate-eq (undone t) pos)

abbrev before : Cubic → Undo
before c = record { v = c.current; cwnd = c.cstat.cwnd; ssthresh = c.cstat.ssthresh }

save_undo-before : (c : Cubic) → c.undo.cwnd < c.cstat.cwnd → save_undo c ≡ before c
unfolding save_undo
save_undo-before c fresh = rw (lt→ltb c.undo.cwnd c.cstat.cwnd fresh)

-- A loss that turns out to be spurious before anything else happens is undone: the window, the slow
-- start threshold and the variables of CUBIC are those from before. The window is to be above two
-- packets, so that the loss reduces it, and above the one that is remembered for an earlier loss.
pub on_spurious-congestion_event :
    (c : Cubic) (sent_ts : ℕ) (ack : Ack) (ts : ℕ)
    → IsOpen c sent_ts
    → 2 * c.cstat.max_tx_udp_payload_size < c.cstat.cwnd
    → c.undo.cwnd < c.cstat.cwnd
    → (t : Cubic) × ((congestion_event c sent_ts ack ts >>= on_spurious_congestion) ≡ ok t)
      × IsRestored c t
on_spurious-congestion_event c sent_ts ack ts o above fresh =
    let lost = reduced c sent_ts o ack ts in
    let r = reduced-IsReduced c sent_ts o ack ts in
    let saved : lost.undo ≡ before c = unfold reduced in save_undo-before c fresh in
    let lower : lost.cstat.cwnd < lost.undo.cwnd =
      rw saved (omega (arith, r.most, above, o.mss_pos, o.window_max)) in
    let p = pace-IsPaced (undone lost) (unfold reduced cut pace in omega (arith, o.mss_max)) in
    (
      restored lost,
      rw (event-reduced c sent_ts o ack ts)
          (on_spurious-restored lost lower (omega (arith, lower))),
      record {
        window = p.same_cwnd ∙ ap (λ u. u.cwnd) saved;
        threshold = p.same_ssthresh ∙ ap (λ u. u.ssthresh) saved;
        vars = ap (λ u. u.v) saved;
        recovery = p.same_recovery;
        undo = refl;
      },
    )
