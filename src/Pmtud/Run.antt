-- ===== src/Pmtud/Run.antt =====
-- The search of lib/ngtcp2_pmtud.c as a whole, through all events.
use zngtcp.Base.{
  ℕ, ◌<◌, ◌≡◌, refl, ap, ◌∙◌, inl, inr, List, [], ◌∷◌, some, true, false, Bool-cases, Outcome, ok,
  ◌>>=◌, ltb, leb, ◌==◌, length, get_elem?, get_elem-none, All, arith, if◌then◌else◌,
}
use zngtcp.Pmtud.{
  uint64_max, default_probes, Pmtud, first_index, new, probe_sent, probe_success, handle_expiry,
  finished,
}
use zngtcp.Pmtud.Search.{first_index-Stops}
use zngtcp.Pmtud.Valid.{IsValid, Settled, probe_success-IsValid, handle_expiry-IsValid}

-- What the connection tells the search, which it drops once the search is finished.
pub data Event : Type 0 where
  sent : (pto ts : ℕ) → Event
  acked : (payloadlen : ℕ) → Event
  expired : (ts : ℕ) → Event

unfoldable pub step : Pmtud → Event → Outcome Pmtud
step s (sent pto ts) = ok (probe_sent s pto ts)
step s (acked payloadlen) = probe_success s payloadlen
step s (expired ts) = handle_expiry s ts

unfoldable pub run : Pmtud → List Event → Outcome Pmtud
unfolding step
run s [] = ok s
run s (e ∷ es) = let next = (do s' ← step s e; run s' es) in if finished s then ok s else next

step-IsValid :
    (s : Pmtud) (e : Event)
    → IsValid s
    → s.mtu_idx < length s.probes
    → (s' : Pmtud) × (step s e ≡ ok s') × IsValid s'
unfolding step probe_sent
step-IsValid s (sent pto ts) v lt = (
  probe_sent s pto ts,
  refl,
  record {
    within = v.within;
    settled = v.settled;
    candidate = v.candidate;
    idle = λ e. absurd (omega (arith, lt, e));
  },
)
step-IsValid s (acked payloadlen) v lt = probe_success-IsValid s payloadlen v lt
step-IsValid s (expired ts) v lt = handle_expiry-IsValid s ts v

run-IsValid :
    (s : Pmtud) (es : List Event) → IsValid s → (s' : Pmtud) × (run s es ≡ ok s') × IsValid s'
unfolding run finished
run-IsValid s [] v = (s, refl, v)
run-IsValid s (e ∷ es) v = elim (Bool-cases (leb (length s.probes) s.mtu_idx)) [
  | inl over ↦ (s, ground (arith, over), v)
  | inr on ↦
      let (s1, stepped, valid) = step-IsValid s e v (ground (arith, on)) in
      let (s2, ran, valid') = run-IsValid s1 es valid in
      (s2, ground (arith, on, stepped, ran), valid')
]

-- The state of `ngtcp2_pmtud_new` with the probes `ps`.
abbrev start : ℕ → ℕ → ℕ → List ℕ → Pmtud
start max_size hard_max tx_pkt_num ps = record {
  mtu_idx = first_index hard_max max_size 0 ps;
  num_pkts_sent = 0;
  expiry = uint64_max;
  tx_pkt_num = tx_pkt_num;
  max_udp_payload_size = max_size;
  hard_max_udp_payload_size = hard_max;
  min_fail_udp_payload_size = uint64_max;
  probes = ps;
}

start-IsValid :
    (max_size hard_max tx_pkt_num : ℕ) (ps : List ℕ)
    → All (λ p. p < uint64_max) ps
    → IsValid (start max_size hard_max tx_pkt_num ps)
start-IsValid max_size hard_max tx_pkt_num ps small =
    let found = first_index-Stops hard_max max_size 0 ps small in
    let here : found.steps ≡ first_index hard_max max_size 0 ps = omega (arith, found.at) in
    record {
      within = omega (arith, found.within, here);
      settled = λ i p h e. found.passed i p (omega (arith, h, here)) e;
      candidate = λ p e. found.stops p (ap (get_elem? ps) here ∙ e);
      idle = λ e. refl;
    }

new-IsValid :
    (max_size hard_max tx_pkt_num : ℕ) (probes : List ℕ)
    → All (λ p. p < uint64_max) probes
    → IsValid (new max_size hard_max tx_pkt_num probes)
unfolding new
new-IsValid max_size hard_max tx_pkt_num [] small =
    start-IsValid max_size hard_max tx_pkt_num default_probes
      (omega arith, (omega arith, (omega arith, (omega arith, tt))))
new-IsValid max_size hard_max tx_pkt_num (p ∷ ps) small =
    let given : length (p ∷ ps) == 0 ≡ false = ground arith in
    rw (given, new) (start-IsValid max_size hard_max tx_pkt_num (p ∷ ps) small)

index_lt : (ps : List ℕ) (i p : ℕ) → get_elem? ps i ≡ some p → i < length ps
index_lt ps i p e = elim (Bool-cases (ltb i (length ps))) [
  | inl before ↦ ground (arith, before)
  | inr behind ↦ absurd (ground (arith, behind, e, get_elem-none ps i))
]

-- Whatever is sent, acknowledged and timed out, the search from `ngtcp2_pmtud_new` on fails no
-- `assert` and reads no probe outside of its array. Every probe that it has passed is at most the
-- size known to work, at least a size that failed, or larger than the path is asked for; once
-- `ngtcp2_pmtud_finished` holds, that is every probe.
pub run-new :
    (max_size hard_max tx_pkt_num : ℕ) (probes : List ℕ) (es : List Event)
    → All (λ p. p < uint64_max) probes
    → (s : Pmtud) × (run (new max_size hard_max tx_pkt_num probes) es ≡ ok s)
      × ((i p : ℕ) → i < s.mtu_idx → get_elem? s.probes i ≡ some p → Settled s p)
      × (finished s ≡ true → (i p : ℕ) → get_elem? s.probes i ≡ some p → Settled s p)
unfolding finished
run-new max_size hard_max tx_pkt_num probes es small =
    let (s, ran, valid) =
      run-IsValid (new max_size hard_max tx_pkt_num probes) es
        (new-IsValid max_size hard_max tx_pkt_num probes small) in
    (
      s,
      ran,
      valid.settled,
      λ over i p e. valid.settled i p (ground (arith, over, index_lt s.probes i p e)) e,
    )
