-- ===== src/Pmtud/Ends.antt =====
-- The search of lib/ngtcp2_pmtud.c ends where every probe is lost.
use zngtcp.Base.{
  ℕ, suc, ◌+◌, ◌-◌, ◌*◌, ◌≤◌, ◌<◌, ◌≡◌, refl, inl, inr, List, [], ◌∷◌, true, Bool-cases, ok, ltb,
  leb, length, drop, min, All, arith,
}
use zngtcp.Pmtud.{
  uint64_max, Pmtud, probe_num_max, new, probe_sent, next_index, next_probe, handle_expiry,
  finished,
}
use zngtcp.Pmtud.Search.{next_index-Stops}
use zngtcp.Pmtud.Valid.{current_probe}
use zngtcp.Pmtud.Run.{Event, run, step}

-- Each probe is sent at one of the times and is lost: the timer expires three timeouts later.
abbrev pub lost : ℕ → List ℕ → List Event
lost pto [] = []
lost pto (ts ∷ times) = Event.sent pto ts ∷ Event.expired (ts + 3 * pto) ∷ lost pto times

-- How many probes can still be sent
abbrev left : Pmtud → ℕ
left s = 3 * (length s.probes - s.mtu_idx) - s.num_pkts_sent

next_probe-moves :
    (s : Pmtud)
    → s.mtu_idx < length s.probes
    → (s' : Pmtud) × (next_probe s ≡ ok s')
      × (s.mtu_idx < s'.mtu_idx)
      × (s'.probes ≡ s.probes)
      × (s'.num_pkts_sent ≡ 0)
unfolding next_probe
next_probe-moves s lt =
    let hard = s.hard_max_udp_payload_size in
    let size = s.max_udp_payload_size in
    let fail = s.min_fail_udp_payload_size in
    let i = suc s.mtu_idx in
    let found = next_index-Stops hard size fail i (drop i s.probes) in
    (
      record s {
        mtu_idx = next_index hard size fail i (drop i s.probes);
        num_pkts_sent = 0;
        expiry = uint64_max;
      },
      ground (arith, lt),
      omega (arith, found.at),
      refl,
      refl,
    )

expired_moves :
    (s : Pmtud) (ts : ℕ)
    → s.mtu_idx < length s.probes
    → s.num_pkts_sent ≤ 3
    → s.expiry ≤ ts
    → (s' : Pmtud) × (handle_expiry s ts ≡ ok s') × (s'.num_pkts_sent ≤ 2) × (left s' ≤ left s)
unfolding handle_expiry
expired_moves s ts lt few due = elim (Bool-cases (ltb s.num_pkts_sent probe_num_max)) [
  | inl again ↦ (
    record s { expiry = uint64_max },
    ground (arith, again, due),
    ground (arith, again),
    omega arith,
  )
  | inr enough ↦
      let (p, found, reads) = current_probe s lt in
      let (s', moved, on, same, none_sent) =
        next_probe-moves
          (record s {
            expiry = uint64_max;
            min_fail_udp_payload_size = min s.min_fail_udp_payload_size p;
          })
          lt in
      (
        s',
        ground (arith, enough, due, reads, moved),
        omega (arith, none_sent),
        rw (same, none_sent) ground (arith, on, few),
      )
]

lost_probe :
    (s : Pmtud) (pto ts : ℕ)
    → s.mtu_idx < length s.probes
    → s.num_pkts_sent ≤ 2
    → ts + 3 * pto < uint64_max
    → (s' : Pmtud) × (handle_expiry (probe_sent s pto ts) (ts + 3 * pto) ≡ ok s')
      × (s'.num_pkts_sent ≤ 2)
      × (left s' < left s)
unfolding probe_sent
lost_probe s pto ts lt few small =
    let soon : (probe_sent s pto ts).expiry ≤ ts + 3 * pto = ground arith in
    let (s', moved, few', le) =
      expired_moves (probe_sent s pto ts) (ts + 3 * pto) lt (omega (arith, few)) soon in
    (s', moved, few', omega (arith, le, lt, few))

run-lost :
    (s : Pmtud) (pto : ℕ) (times : List ℕ)
    → s.num_pkts_sent ≤ 2
    → All (λ ts. ts + 3 * pto < uint64_max) times
    → left s ≤ length times
    → (s' : Pmtud) × (run s (lost pto times) ≡ ok s') × (finished s' ≡ true)
unfolding run step finished probe_sent
run-lost s pto [] few small enough = (s, refl, ground (arith, few, enough))
run-lost s pto (ts ∷ times) few small enough = elim (Bool-cases (leb (length s.probes) s.mtu_idx)) [
  | inl over ↦ (s, ground (arith, over), over)
  | inr on ↦
      let (s1, moved, few1, lt) = lost_probe s pto ts (ground (arith, on)) few small.0 in
      let (s2, ran, end) = run-lost s1 pto times few1 small.1 (omega (arith, lt, enough)) in
      (s2, ground (arith, on, moved, ran), end)
]

-- A search that is new ends, if for each of its probes three packets are sent and lost, at any
-- times which with three times the timeout are below 2 ^ 64 - 1: the events fail no `assert`, and
-- `ngtcp2_pmtud_finished` holds behind them.
pub new-lost :
    (max_size hard_max tx_pkt_num pto : ℕ) (probes times : List ℕ)
    → All (λ ts. ts + 3 * pto < uint64_max) times
    → 3 * length (new max_size hard_max tx_pkt_num probes).probes ≤ length times
    → (s : Pmtud) × (run (new max_size hard_max tx_pkt_num probes) (lost pto times) ≡ ok s)
      × (finished s ≡ true)
unfolding new
new-lost max_size hard_max tx_pkt_num pto probes times small enough =
    run-lost (new max_size hard_max tx_pkt_num probes) pto times (omega arith) small
      (omega (arith, enough))
