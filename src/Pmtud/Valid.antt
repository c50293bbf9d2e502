-- ===== src/Pmtud/Valid.antt =====
-- What every operation of lib/ngtcp2_pmtud.c keeps.
use zngtcp.Base.{
  ℕ, suc, ◌+◌, ◌-◌, ◌≤◌, ◌<◌, ◌≡◌, refl, ap, ◌∙◌, inl, inr, min, max, some, Bool-cases, ok, ltb,
  ◌==◌, length, length-drop, get_elem?, get_elem-some, get_elem-drop, drop, arith,
}
use zngtcp.Pmtud.{
  uint64_max, probe_num_max, Pmtud, current, next_index, next_probe, probe_success, handle_expiry,
}
use zngtcp.Pmtud.Search.{IsSettled, IsOpen, next_index-Stops}

abbrev pub Settled : Pmtud → ℕ → Type 0
Settled s p =
    IsSettled s.hard_max_udp_payload_size s.max_udp_payload_size s.min_fail_udp_payload_size p

-- All probes before the current one are settled, and the current one is not; no packets are counted
-- when there is no probe left.
pub record IsValid (s : Pmtud) : Type 0 where
  pub within : s.mtu_idx ≤ length s.probes
  pub settled : (i p : ℕ) → i < s.mtu_idx → get_elem? s.probes i ≡ some p → Settled s p
  pub candidate :
      (p : ℕ)
      → get_elem? s.probes s.mtu_idx ≡ some p
      → IsOpen s.hard_max_udp_payload_size s.max_udp_payload_size s.min_fail_udp_payload_size p
  pub idle : s.mtu_idx ≡ length s.probes → s.num_pkts_sent ≡ 0

settled_more : (h m f m' f' p : ℕ) → m ≤ m' → f' ≤ f → IsSettled h m f p → IsSettled h m' f' p
settled_more h m f m' f' p a b (inl e) = inl (omega (arith, a, e))
settled_more h m f m' f' p a b (inr (inl e)) = inr (inl e)
settled_more h m f m' f' p a b (inr (inr e)) = inr (inr (omega (arith, b, e)))

-- Past the current probe.
next_probe-IsValid :
    (s : Pmtud)
    → s.mtu_idx < length s.probes
    → ((i p : ℕ) → i < suc s.mtu_idx → get_elem? s.probes i ≡ some p → Settled s p)
    → (s' : Pmtud) × (next_probe s ≡ ok s') × IsValid s'
unfolding next_probe
next_probe-IsValid s lt known =
    let i = suc s.mtu_idx in
    let k =
      next_index s.hard_max_udp_payload_size s.max_udp_payload_size s.min_fail_udp_payload_size i
        (drop i s.probes) in
    let found =
      next_index-Stops s.hard_max_udp_payload_size s.max_udp_payload_size
        s.min_fail_udp_payload_size i (drop i s.probes) in
    (
      record s { mtu_idx = k; num_pkts_sent = 0; expiry = uint64_max },
      ground (arith, lt),
      record {
        within = omega (arith, found.at, found.within, length-drop i s.probes, lt);
        settled = λ j p h e. elim (Bool-cases (ltb j i)) [
          | inl old ↦ known j p (ground (arith, old)) e
          | inr passed ↦
              let later : i ≤ j = ground (arith, passed) in
              let back : j - i + i ≡ j = omega (arith, later) in
              found.passed (j - i) p (omega (arith, h, later, found.at))
                (get_elem-drop i s.probes (j - i) ∙ ap (get_elem? s.probes) back ∙ e)
        ];
        candidate = λ p e.
            let here : found.steps + i ≡ k = omega (arith, found.at) in
            found.stops p (get_elem-drop i s.probes found.steps ∙ ap (get_elem? s.probes) here ∙ e);
        idle = λ e. refl;
      },
    )

pub current_probe :
    (s : Pmtud)
    → s.mtu_idx < length s.probes
    → (p : ℕ) × (get_elem? s.probes s.mtu_idx ≡ some p) × (current s ≡ ok p)
unfolding current
current_probe s lt =
    let (p, found) = get_elem-some s.probes s.mtu_idx lt in (p, found, rw (found, current) refl)

up_to_current :
    (s : Pmtud) (q : ℕ)
    → ((i p : ℕ) → i < s.mtu_idx → get_elem? s.probes i ≡ some p → Settled s p)
    → get_elem? s.probes s.mtu_idx ≡ some q
    → Settled s q
    → (i p : ℕ) → i < suc s.mtu_idx
    → get_elem? s.probes i ≡ some p
    → Settled s p
up_to_current s q settled found known i p h e = elim (Bool-cases (ltb i s.mtu_idx)) [
  | inl before ↦ settled i p (ground (arith, before)) e
  | inr last ↦
      let here : i ≡ s.mtu_idx = ground (arith, last, h) in
      let same : q ≡ p = ground (arith, here, e, found) in rw same at known
]

pub probe_success-IsValid :
    (s : Pmtud) (payloadlen : ℕ)
    → IsValid s
    → s.mtu_idx < length s.probes
    → (s' : Pmtud) × (probe_success s payloadlen ≡ ok s') × IsValid s'
unfolding probe_success
probe_success-IsValid s payloadlen v lt =
    let size = max s.max_udp_payload_size payloadlen in
    let grown : Pmtud = record s { max_udp_payload_size = size } in
    let (q, found, reads) = current_probe s lt in
    let (open_above, wanted, untried) = v.candidate q found in
    let more : (i p : ℕ) → i < s.mtu_idx → get_elem? s.probes i ≡ some p → Settled grown p =
      λ i p h e.
        settled_more s.hard_max_udp_payload_size s.max_udp_payload_size s.min_fail_udp_payload_size
          size s.min_fail_udp_payload_size p (omega arith) (omega arith) (v.settled i p h e) in
    elim (Bool-cases (ltb size q)) [
      | inl smaller ↦ (
        grown,
        ground (arith, lt, reads, smaller),
        record {
          within = v.within;
          settled = more;
          candidate = λ p e.
              let same : q ≡ p = ground (arith, e, found) in
              let still : IsOpen s.hard_max_udp_payload_size size s.min_fail_udp_payload_size q =
                (ground (arith, smaller), wanted, untried) in
              rw same at still;
          idle = v.idle;
        },
      )
      | inr reached ↦
          let known : Settled grown q = inl (ground (arith, reached)) in
          let (s', moved, valid) =
            next_probe-IsValid grown lt (up_to_current grown q more found known) in
          (s', ground (arith, lt, reads, reached, moved), valid)
    ]

not_at_end : (s : Pmtud) → IsValid s → probe_num_max ≤ s.num_pkts_sent → s.mtu_idx < length s.probes
not_at_end s v enough = elim (Bool-cases (s.mtu_idx == length s.probes)) [
  | inl end ↦ absurd (omega (arith, enough, v.idle (ground (arith, end))))
  | inr before ↦ ground (arith, before, v.within)
]

pub handle_expiry-IsValid :
    (s : Pmtud) (ts : ℕ) → IsValid s → (s' : Pmtud) × (handle_expiry s ts ≡ ok s') × IsValid s'
unfolding handle_expiry
handle_expiry-IsValid s ts v = elim (Bool-cases (ltb ts s.expiry)) [
  | inl early ↦ (s, ground (arith, early), v)
  | inr due ↦ elim (Bool-cases (ltb s.num_pkts_sent probe_num_max)) [
    | inl again ↦ (
      record s { expiry = uint64_max },
      ground (arith, due, again),
      record { within = v.within; settled = v.settled; candidate = v.candidate; idle = v.idle },
    )
    | inr enough ↦
        let lt : s.mtu_idx < length s.probes = not_at_end s v (ground (arith, enough)) in
        let (q, found, reads) = current_probe s lt in
        let fail = min s.min_fail_udp_payload_size q in
        let lowered : Pmtud = record s { expiry = uint64_max; min_fail_udp_payload_size = fail } in
        let more : (i p : ℕ) → i < s.mtu_idx → get_elem? s.probes i ≡ some p → Settled lowered p =
          λ i p h e.
            settled_more s.hard_max_udp_payload_size s.max_udp_payload_size
              s.min_fail_udp_payload_size s.max_udp_payload_size fail p (omega arith) (omega arith)
              (v.settled i p h e) in
        let known : Settled lowered q = inr (inr (omega arith)) in
        let (s', moved, valid) =
          next_probe-IsValid lowered lt (up_to_current lowered q more found known) in
        (s', ground (arith, due, enough, reads, moved), valid)
  ]
]
