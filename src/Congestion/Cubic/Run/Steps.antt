-- ===== src/Congestion/Cubic/Run/Steps.antt =====
-- The parts of `cubic_cc_on_ack_recv` of lib/ngtcp2_cc.c.
use native.Mathlib.Nat.{mul-le-mul_left, mod-lt, div-mul-le_self, mod-eq-sub-div-mul}
use zngtcp.Base.{
  ℕ, ◌+◌, ◌-◌, ◌*◌, ◌/◌, ◌%◌, ◌^◌, ◌≤◌, ◌<◌, ◌≡◌, refl, ◌∙◌, ◌⊎◌, inl, inr, Bool, true, false, not,
  Bool-cases, Outcome, ok, ◌>>=◌, ltb, leb, lt→ltb, ltb→lt, ◌==◌, arith, if◌then◌else◌,
}
use zngtcp.Congestion.{wrap, minus, ConnStat, Ack, pace, set_pacing_rate}
use zngtcp.Congestion.Pacing.{pace-IsPaced, set_pacing_rate-eq, divide-eq}
use zngtcp.Congestion.Cubic.{Vars, Cubic, compute_w_cubic}
use zngtcp.Congestion.Cubic.Growth.{
  hystart_round, rtt_increased, css_step, slow_start, target_cwnd, carry, end_app_limited,
  grow_estimate, grow_window, avoidance,
}

-- `carry` divides with the remainder kept for the next time; its `assert` holds whatever wraps around.
pub carry-eq :
    (x bytes cwnd : ℕ)
    → 0 < cwnd
    → carry x bytes cwnd ≡ ok (wrap (bytes + x) / cwnd, wrap (bytes + x) % cwnd)
unfolding carry
carry-eq x bytes cwnd pos =
    let n = wrap (bytes + x) in
    let m = n / cwnd in
    let under : m * cwnd ≤ n = div-mul-le_self n cwnd in
    let rest : n % cwnd ≡ n - m * cwnd = mod-eq-sub-div-mul n cwnd in
    let short : n % cwnd < cwnd = mod-lt n pos in
    let left : minus (wrap (x + bytes)) (wrap (m * cwnd)) ≡ n % cwnd = omega (arith, under, rest) in
    rw (divide-eq n cwnd pos, left, lt→ltb (n % cwnd) cwnd short)

-- Slow start with the statistics that it leaves
abbrev next_stat : Cubic → Ack → Bool → ConnStat
next_stat c ack is_app_limited =
    let gain = if c.hs.css_round == 0 then ack.bytes_delivered else ack.bytes_delivered / 4 in
    if is_app_limited then c.cstat else pace (record c.cstat { cwnd = wrap (c.cstat.cwnd + gain) })

abbrev slow_next : Cubic → Ack → ℕ → Bool → Bool → Cubic
slow_next c ack ts round_start is_app_limited =
    let h = hystart_round c.hs ack round_start in
    let c' = record c { hs = h; cstat = next_stat c ack is_app_limited } in
    let marked = record c' {
      hs = record h { css_baseline_min_rtt = h.current_round_min_rtt; css_round = 1 };
    } in
    if not (h.css_round == 0) then css_step c' ts else if rtt_increased h then marked else c'

-- The statistics of `t` are `s`, except that the slow start threshold may be the window.
abbrev Keeps : ConnStat → Cubic → Type 0
Keeps s t =
    (t.cstat.cwnd ≡ s.cwnd)
    × (t.cstat.max_tx_udp_payload_size ≡ s.max_tx_udp_payload_size)
    × ((t.cstat.ssthresh ≡ s.ssthresh) ⊎ (t.cstat.ssthresh ≡ t.cstat.cwnd))

css_step-Keeps : (c : Cubic) (ts : ℕ) → Keeps c.cstat (css_step c ts)
unfolding css_step
css_step-Keeps c ts = elim (Bool-cases (ltb c.hs.current_round_min_rtt c.hs.css_baseline_min_rtt)) [
  | inl back ↦ rw back (refl, refl, inl refl)
  | inr on ↦ elim (Bool-cases (leb 5 c.hs.css_round)) [
    | inl over ↦ rw (on, over) (refl, refl, inr refl)
    | inr early ↦ rw (on, early) (refl, refl, inl refl)
  ]
]

-- `t` is the state after an acknowledgement, where the statistics were `s`.
pub record IsAcked (s : ConnStat) (ack : Ack) (t : Cubic) : Type 0 where
  pub positive : 0 < t.cstat.cwnd
  pub same_mss : t.cstat.max_tx_udp_payload_size ≡ s.max_tx_udp_payload_size
  pub threshold : (t.cstat.ssthresh ≡ s.ssthresh) ⊎ (t.cstat.ssthresh ≡ t.cstat.cwnd)
  pub grown : (s.cwnd ≤ t.cstat.cwnd) ⊎ (t.cstat.cwnd ≡ t.current.w_est)
  pub slow :
      s.cwnd < s.ssthresh → (s.cwnd ≤ t.cstat.cwnd) × (t.cstat.cwnd ≤ s.cwnd + ack.bytes_delivered)

abbrev pub Acks : ConnStat → Ack → Outcome Cubic → Type 0
Acks s ack o = (t : Cubic) × (o ≡ ok t) × IsAcked s ack t

module _ (c : Cubic) (ack : Ack) (ts : ℕ) (pos : 2 ≤ c.cstat.cwnd) (room : c.cstat.cwnd < 2 ^ 63)
    (few : ack.bytes_delivered < 2 ^ 62) (small : c.cstat.max_tx_udp_payload_size < 2 ^ 16) where
  slow-eq :
      (round_start is_app_limited : Bool)
      → slow_start c ack ts round_start is_app_limited
        ≡ ok (slow_next c ack ts round_start is_app_limited)
  unfolding slow_start
  slow-eq round_start true = refl
  slow-eq round_start false =
      let gain = if c.hs.css_round == 0 then ack.bytes_delivered else ack.bytes_delivered / 4 in
      let s : ConnStat = record c.cstat { cwnd = wrap (c.cstat.cwnd + gain) } in
      rw (set_pacing_rate-eq s (ground (arith, pos, room, few)))

  stat_facts :
      (is_app_limited : Bool)
      → let s = next_stat c ack is_app_limited in
        (c.cstat.cwnd ≤ s.cwnd)
        × (s.cwnd ≤ c.cstat.cwnd + ack.bytes_delivered)
        × (s.max_tx_udp_payload_size ≡ c.cstat.max_tx_udp_payload_size)
        × (s.ssthresh ≡ c.cstat.ssthresh)
  unfolding pace
  stat_facts true = (omega arith, omega arith, refl, refl)
  stat_facts false = (ground (arith, room, few), ground (arith, room, few), refl, refl)

  growth_IsAcked :
      (s : ConnStat) (t : Cubic)
      → (c.cstat.cwnd ≤ s.cwnd)
        × (s.cwnd ≤ c.cstat.cwnd + ack.bytes_delivered)
        × (s.max_tx_udp_payload_size ≡ c.cstat.max_tx_udp_payload_size)
        × (s.ssthresh ≡ c.cstat.ssthresh)
      → Keeps s t
      → IsAcked c.cstat ack t
  growth_IsAcked s t facts k = record {
    positive = omega (arith, k.0, facts.0, pos);
    same_mss = k.1 ∙ facts.2;
    threshold = elim k.2 [ inl same ↦ inl (same ∙ facts.3) | inr set ↦ inr set ];
    grown = inl (omega (arith, k.0, facts.0));
    slow = λ h. (omega (arith, k.0, facts.0), omega (arith, k.0, facts.1));
  }

  pub slow_Acks :
      (round_start is_app_limited : Bool)
      → Acks c.cstat ack (slow_start c ack ts round_start is_app_limited)
  slow_Acks round_start is_app_limited =
      let s = next_stat c ack is_app_limited in
      let h = hystart_round c.hs ack round_start in
      let next = slow_next c ack ts round_start is_app_limited in
      let kept : Keeps s next = elim (Bool-cases (not (h.css_round == 0))) [
        | inl css ↦ rw css (css_step-Keeps (record c { hs = h; cstat = s }) ts)
        | inr slow ↦ rw slow (elim (Bool-cases (rtt_increased h)) [
          | inl longer ↦ rw longer (refl, refl, inl refl)
          | inr same ↦ rw same (refl, refl, inl refl)
        ])
      ] in
      (
        next,
        slow-eq round_start is_app_limited,
        growth_IsAcked s next (stat_facts is_app_limited) kept,
      )

  grow_estimate_lem :
      (v : Vars) → (v' : Vars) × (grow_estimate v c.cstat ack.bytes_delivered ≡ ok v')
  unfolding grow_estimate
  grow_estimate_lem v =
      let bytes = wrap (ack.bytes_delivered * c.cstat.max_tx_udp_payload_size) in
      rw (carry-eq v.pending_est_bytes_acked bytes c.cstat.cwnd (omega (arith, pos))) (_, refl)

  grow_window_lem :
      (v : Vars) (target : ℕ)
      → (v' : Vars) × (w : ℕ) × (grow_window v c.cstat target ≡ ok (v', w)) × (c.cstat.cwnd ≤ w)
  unfolding grow_window
  grow_window_lem v target =
      let cwnd = c.cstat.cwnd in
      let bytes = wrap (minus target cwnd * c.cstat.max_tx_udp_payload_size) in
      let n = wrap (bytes + v.pending_bytes_acked) in
      let twice : n / cwnd * 2 ≤ n / cwnd * cwnd = mul-le-mul_left (n / cwnd) pos in
      let half : n / cwnd < 2 ^ 63 = omega (arith, twice, div-mul-le_self n cwnd) in
      rw (carry-eq v.pending_bytes_acked bytes cwnd (omega (arith, pos)))
        (_, _, refl, omega (arith, half, room))

  -- The end of `avoidance`, with the window that was found
  settle_Acks :
      (v : Vars) (w : ℕ)
      → c.cstat.ssthresh ≤ c.cstat.cwnd
      → 0 < w
      → (c.cstat.cwnd ≤ w) ⊎ (w ≡ v.w_est)
      → Acks c.cstat ack (do
        s ← set_pacing_rate (record c.cstat { cwnd = w })
        ok (record c { current = v; cstat = s }))
  settle_Acks v w late some way =
      let s : ConnStat = record c.cstat { cwnd = w } in
      let p = pace-IsPaced s (omega (arith, small)) in
      (
        record c { current = v; cstat = pace s },
        rw (set_pacing_rate-eq s some),
        record {
          positive = omega (arith, p.same_cwnd, some);
          same_mss = p.same_mss;
          threshold = inl p.same_ssthresh;
          grown = elim way [
            | inl up ↦ inl (omega (arith, up, p.same_cwnd))
            | inr down ↦ inr (p.same_cwnd ∙ down)
          ];
          slow = λ h. absurd (omega (arith, h, late));
        },
      )

  pub avoidance-Acks : c.cstat.ssthresh ≤ c.cstat.cwnd → Acks c.cstat ack (avoidance c ack ts)
  unfolding avoidance
  avoidance-Acks late =
      let s = c.cstat in
      let v0 = end_app_limited c.current ts in
      let c0 = record c { current = v0 } in
      let now = minus ts v0.app_limited_duration in
      let w_cubic = compute_w_cubic c0 now in
      let target = target_cwnd s.cwnd (compute_w_cubic c0 (wrap (now + s.smoothed_rtt))) in
      let (v, grew) = grow_estimate_lem v0 in
      rw grew (elim (Bool-cases (ltb w_cubic v.w_est)) [
        | inl est ↦
            rw est
              (settle_Acks v v.w_est late (omega (arith, ltb→lt w_cubic v.w_est est)) (inr refl))
        | inr cubic ↦
            let (v', w, went, up) = grow_window_lem v target in
            rw (cubic, went) (settle_Acks v' w late (omega (arith, up, pos)) (inl up))
      ])
