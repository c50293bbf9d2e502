-- ===== src/Congestion/Reno/Run/Steps.antt =====
-- One event of the NewReno controller of lib/ngtcp2_cc.c.
use native.Mathlib.Nat.{mul-le-mul, div-mul-le_self, mod-lt}
use zngtcp.Base.{
  ℕ, zero, suc, ◌+◌, ◌*◌, ◌/◌, ◌%◌, ◌^◌, ◌≤◌, ◌<◌, ◌≡◌, refl, ◌⊎◌, max, inl, inr, List, [], ◌∷◌,
  ◌||◌, Bool-cases, Outcome, ok, ◌>>=◌, ltb, arith,
}
use zngtcp.Congestion.{uint64_max, ConnStat, Pkt, initial_pace, pace, in_congestion_recovery}
use zngtcp.Congestion.Pacing.{
  pace-IsPaced, initial_pace-IsPaced, set_pacing_rate-eq, init_pacing_rate-eq, divide-eq,
}
use zngtcp.Congestion.Reno.{
  Reno, on_pkt_acked, congestion_event, on_persistent_congestion, reno_reset,
}

-- What the connection tells the controller
pub data Event : Type 0 where
  acked : Pkt → Event
  congestion : (sent_ts ts : ℕ) → Event
  persistent_congestion reset : Event

unfoldable pub step : Reno → Event → Outcome Reno
step r (acked pkt) = on_pkt_acked r pkt
step r (congestion sent_ts ts) = congestion_event r sent_ts ts
step r persistent_congestion = on_persistent_congestion r
step r reset = reno_reset r

unfoldable pub run : Reno → List Event → Outcome Reno
run r [] = ok r
run r (e ∷ es) = do r' ← step r e; run r' es

-- A packet is smaller than 64 KiB.
abbrev pub IsSmall : Event → Type 0
IsSmall (acked pkt) = pkt.pktlen < 2 ^ 16
IsSmall _ = Unit

ℕ-cases : (n : ℕ) → (n ≡ 0) ⊎ (1 ≤ n)
ℕ-cases zero = inl refl
ℕ-cases (suc n) = inr (omega arith)

sum-le-mul : (a b : ℕ) → 1 ≤ a → 1 ≤ b → a + b ≤ b * a + 1
sum-le-mul zero b ha hb = absurd (omega arith)
sum-le-mul (suc a) zero ha hb = absurd (omega arith)
sum-le-mul (suc a) (suc b) ha hb = grind arith

pub bound_zero : (b : ℕ) → b + 2 ^ 33 * 0 ≡ b
bound_zero b = omega arith

pub bound_suc : (b n : ℕ) → b + 2 ^ 33 + 2 ^ 33 * n ≡ b + 2 ^ 33 * suc n
bound_suc b n = omega arith

-- With `bound` on what the window and the carried bytes have grown to
pub record IsSound (mss bound : ℕ) (r : Reno) : Type 0 where
  pub same_mss : r.cstat.max_tx_udp_payload_size ≡ mss
  pub window : 2 * mss ≤ r.cstat.cwnd
  pub threshold : 2 * mss ≤ r.cstat.ssthresh
  pub interval : 1 ≤ r.cstat.pacing_interval_m
  pub quantum : 10 * mss ≤ r.cstat.send_quantum
  pub window_max : r.cstat.cwnd ≤ bound
  pub carried_max : r.pending_add ≤ bound

abbrev Steps : ℕ → ℕ → Outcome Reno → Type 0
Steps mss bound o = (r : Reno) × (o ≡ ok r) × IsSound mss (bound + 2 ^ 33) r

module _ (mss bound : ℕ) (pos : 0 < mss) (small : mss < 2 ^ 16) (room : bound < 2 ^ 63) (r : Reno)
    (v : IsSound mss bound r) where
  stays : Steps mss bound (ok r)
  stays = (
    r,
    refl,
    record {
      same_mss = v.same_mss;
      window = v.window;
      threshold = v.threshold;
      interval = v.interval;
      quantum = v.quantum;
      window_max = omega (arith, v.window_max);
      carried_max = omega (arith, v.carried_max);
    },
  )

  -- A new window, paced
  paced :
      (s : ConnStat) (pending : ℕ)
      → s.max_tx_udp_payload_size ≡ mss
      → 2 * mss ≤ s.cwnd
      → 2 * mss ≤ s.ssthresh
      → s.cwnd ≤ bound + 2 ^ 33
      → pending ≤ bound + 2 ^ 33
      → IsSound mss (bound + 2 ^ 33) (record { pending_add = pending; cstat = pace s })
  paced s pending same window threshold grown carried =
      let p = pace-IsPaced s (omega (arith, same, small)) in
      record {
        same_mss = omega (arith, p.same_mss, same);
        window = omega (arith, p.same_cwnd, window);
        threshold = omega (arith, p.same_ssthresh, threshold);
        interval = p.interval;
        quantum = omega (arith, p.quantum, same);
        window_max = omega (arith, p.same_cwnd, grown);
        carried_max = carried;
      }

  congestion_Steps : (sent_ts ts : ℕ) → Steps mss bound (congestion_event r sent_ts ts)
  unfolding congestion_event
  congestion_Steps sent_ts ts = elim (Bool-cases (in_congestion_recovery r.cstat sent_ts)) [
    | inl recovering ↦ rw recovering stays
    | inr new ↦
        let s = r.cstat in
        let cwnd = max (s.cwnd / 2) (2 * s.max_tx_udp_payload_size % 2 ^ 64) in
        let cut : ConnStat = record s {
          congestion_recovery_start_ts = ts;
          cwnd = cwnd;
          ssthresh = cwnd;
        } in
        let enough : 2 * mss ≤ cwnd = omega (arith, v.same_mss, small) in
        (
          record { pending_add = 0; cstat = pace cut },
          rw (new, set_pacing_rate-eq cut (omega (arith, enough, pos))),
          paced cut 0 v.same_mss enough enough (omega (arith, v.window_max, v.same_mss, v.window))
              (omega arith),
        )
  ]

  persistent_Steps : Steps mss bound (on_persistent_congestion r)
  unfolding on_persistent_congestion
  persistent_Steps =
      let s = r.cstat in
      let cut : ConnStat = record s {
        cwnd = 2 * s.max_tx_udp_payload_size % 2 ^ 64;
        congestion_recovery_start_ts = uint64_max;
      } in
      let enough : 2 * mss ≤ cut.cwnd = omega (arith, v.same_mss, small) in
      (
        record { pending_add = r.pending_add; cstat = pace cut },
        rw (set_pacing_rate-eq cut (omega (arith, enough, pos))),
        paced cut r.pending_add v.same_mss enough v.threshold
            (omega (arith, v.window_max, v.same_mss, v.window)) (omega (arith, v.carried_max)),
      )

  reset_Steps : Steps mss bound (reno_reset r)
  unfolding reno_reset
  reset_Steps =
      let s = r.cstat in
      let p = initial_pace-IsPaced s (omega (arith, v.same_mss, small)) in
      (
        record { pending_add = 0; cstat = initial_pace s },
        rw (init_pacing_rate-eq s (omega (arith, v.window, pos))),
        record {
          same_mss = omega (arith, p.same_mss, v.same_mss);
          window = omega (arith, p.same_cwnd, v.window);
          threshold = omega (arith, p.same_ssthresh, v.threshold);
          interval = p.interval;
          quantum = omega (arith, p.quantum, v.same_mss);
          window_max = omega (arith, p.same_cwnd, v.window_max);
          carried_max = omega arith;
        },
      )

  divided : (m : ℕ) → m ≤ bound + 2 ^ 32 → r.cstat.cwnd + m / r.cstat.cwnd ≤ bound + 2 ^ 33
  divided m most =
      let c = r.cstat.cwnd in
      let some : 1 ≤ c = omega (arith, v.window, pos) in
      elim (ℕ-cases (m / c)) [
        | inl none ↦ omega (arith, none, v.window_max)
        | inr more ↦ omega (arith, sum-le-mul c (m / c) some more, div-mul-le_self m c, most)
      ]

  acked_Steps : (pkt : Pkt) → pkt.pktlen < 2 ^ 16 → Steps mss bound (on_pkt_acked r pkt)
  unfolding on_pkt_acked
  acked_Steps pkt short =
      let s = r.cstat in
      let grown : ConnStat = record s { cwnd = (s.cwnd + pkt.pktlen) % 2 ^ 64 } in
      let product : s.max_tx_udp_payload_size * pkt.pktlen ≤ 2 ^ 16 * 2 ^ 16 =
        mul-le-mul {n₁ = s.max_tx_udp_payload_size} {m₁ = pkt.pktlen} {n₂ = 2 ^ 16} {m₂ = 2 ^ 16}
          (omega (arith, v.same_mss, small)) (omega arith) in
      let m = s.max_tx_udp_payload_size * pkt.pktlen + r.pending_add in
      let exact : m % 2 ^ 64 ≡ m = omega (arith, product, v.carried_max, room) in
      let most : m ≤ bound + 2 ^ 32 = omega (arith, product, v.carried_max) in
      let next : ConnStat = record s { cwnd = (s.cwnd + m / s.cwnd) % 2 ^ 64 } in
      let larger = divided m most in
      let some : 0 < s.cwnd = omega (arith, v.window, pos) in
      elim (Bool-cases (in_congestion_recovery s pkt.sent_ts || pkt.is_app_limited)) [
        | inl ignored ↦ rw ignored stays
        | inr counted ↦ elim (Bool-cases (ltb s.cwnd s.ssthresh)) [
          | inl slow ↦ (
            record { pending_add = r.pending_add; cstat = pace grown },
            rw (
              counted,
              slow,
              set_pacing_rate-eq grown (omega (arith, v.window, pos, v.window_max, room)),
            ),
            paced grown r.pending_add v.same_mss (omega (arith, v.window, v.window_max, room))
                v.threshold (omega (arith, v.window_max)) (omega (arith, v.carried_max)),
          )
          | inr avoiding ↦ (
            record { pending_add = m % s.cwnd; cstat = pace next },
            rw (
              counted,
              avoiding,
              exact,
              divide-eq m s.cwnd some,
              set_pacing_rate-eq next (omega (arith, v.window, larger, room, pos)),
            ),
            paced next (m % s.cwnd) v.same_mss (omega (arith, v.window, larger, room)) v.threshold
                (omega (arith, larger)) (omega (arith, mod-lt m some, v.window_max)),
          )
        ]
      ]

  pub step-Steps : (e : Event) → IsSmall e → Steps mss bound (step r e)
  unfolding step
  step-Steps (acked pkt) h = acked_Steps pkt h
  step-Steps (congestion sent_ts ts) h = congestion_Steps sent_ts ts
  step-Steps persistent_congestion h = persistent_Steps
  step-Steps reset h = reset_Steps
