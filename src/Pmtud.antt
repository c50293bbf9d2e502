-- ===== src/Pmtud.antt =====
-- lib/ngtcp2_pmtud.c: the search for the largest UDP payload that a path carries. Sizes and times are
-- 64-bit integers, a probe is a 16-bit one, and `ngtcp2_pmtud_new` is given memory.
pub mod Search
pub mod Valid
pub mod Run
pub mod Ends
pub mod Examples
use zngtcp.Base.{
  ℕ, suc, ◌+◌, ◌-◌, ◌*◌, ◌%◌, ◌^◌, min, max, List, [], ◌∷◌, Option, none, some, Bool, true, false,
  ◌||◌, Outcome, ok, fault, ◌>>=◌, ◌>>◌, assert, ltb, leb, ◌==◌, length, get_elem?, drop,
  if◌then◌else◌,
}

-- UINT64_MAX and SIZE_MAX, no expiry and no failure
abbrev pub uint64_max : ℕ
uint64_max = 2 ^ 64 - 1

-- NGTCP2_PMTUD_PROBE_NUM_MAX
abbrev pub probe_num_max : ℕ
probe_num_max = 3

abbrev pub default_probes : List ℕ
default_probes = (1454 - 48) ∷ (1390 - 48) ∷ (1280 - 48) ∷ (1492 - 48) ∷ []

pub record Pmtud : Type 0 where
  pub mtu_idx : ℕ
  pub num_pkts_sent : ℕ
  pub expiry : ℕ
  pub tx_pkt_num : ℕ
  pub max_udp_payload_size : ℕ
  pub hard_max_udp_payload_size : ℕ
  pub min_fail_udp_payload_size : ℕ
  pub probes : List ℕ

-- The loop of `ngtcp2_pmtud_new`, from index `i` on, where the probes `ps` are left.
unfoldable pub first_index : ℕ → ℕ → ℕ → List ℕ → ℕ
first_index hard_max max_size i [] = i
first_index hard_max max_size i (p ∷ ps) =
    let next = first_index hard_max max_size (suc i) ps in
    if ltb hard_max p then next else if ltb max_size p then i else next

unfoldable pub new : ℕ → ℕ → ℕ → List ℕ → Pmtud
unfolding first_index
new max_size hard_max tx_pkt_num probes =
    let ps = if length probes == 0 then default_probes else probes in
    record {
      mtu_idx = first_index hard_max max_size 0 ps;
      num_pkts_sent = 0;
      expiry = uint64_max;
      tx_pkt_num = tx_pkt_num;
      max_udp_payload_size = max_size;
      hard_max_udp_payload_size = hard_max;
      min_fail_udp_payload_size = uint64_max;
      probes = ps;
    }

-- `pmtud->probes[pmtud->mtu_idx]`
unfoldable pub current : Pmtud → Outcome ℕ
current pmtud = elim (get_elem? pmtud.probes pmtud.mtu_idx) [ none ↦ fault | some p ↦ ok p ]

unfoldable pub probelen : Pmtud → Outcome ℕ
unfolding current
probelen pmtud = do assert (ltb pmtud.mtu_idx (length pmtud.probes)); current pmtud

unfoldable pub probe_sent : Pmtud → ℕ → ℕ → Pmtud
probe_sent pmtud pto ts =
    let sent = suc pmtud.num_pkts_sent in
    let timeout = if ltb sent probe_num_max then pto else 3 * pto % 2 ^ 64 in
    record pmtud { num_pkts_sent = sent; expiry = (ts + timeout) % 2 ^ 64 }

unfoldable pub require_probe : Pmtud → Bool
require_probe pmtud = pmtud.expiry == uint64_max

-- The loop of `pmtud_next_probe`.
unfoldable pub next_index : ℕ → ℕ → ℕ → ℕ → List ℕ → ℕ
next_index hard_max max_size min_fail i [] = i
next_index hard_max max_size min_fail i (p ∷ ps) =
    let next = next_index hard_max max_size min_fail (suc i) ps in
    if leb p max_size || ltb hard_max p then next else if ltb p min_fail then i else next

unfoldable pub next_probe : Pmtud → Outcome Pmtud
unfolding next_index
next_probe pmtud = do
  assert (ltb pmtud.mtu_idx (length pmtud.probes))
  let i = suc pmtud.mtu_idx
  ok (record pmtud {
    mtu_idx =
        next_index pmtud.hard_max_udp_payload_size pmtud.max_udp_payload_size
          pmtud.min_fail_udp_payload_size i (drop i pmtud.probes);
    num_pkts_sent = 0;
    expiry = uint64_max;
  })

unfoldable pub probe_success : Pmtud → ℕ → Outcome Pmtud
unfolding next_probe current
probe_success pmtud payloadlen = do
  let size = max pmtud.max_udp_payload_size payloadlen
  let grown = record pmtud { max_udp_payload_size = size }
  assert (ltb pmtud.mtu_idx (length pmtud.probes))
  p ← current pmtud
  (if ltb size p then ok grown else next_probe grown)

unfoldable pub handle_expiry : Pmtud → ℕ → Outcome Pmtud
unfolding next_probe current
handle_expiry pmtud ts =
    let idle = record pmtud { expiry = uint64_max } in
    if ltb ts pmtud.expiry
    then ok pmtud
    else if ltb pmtud.num_pkts_sent probe_num_max
    then ok idle
    else (do
      p ← current pmtud
      next_probe
          (record idle { min_fail_udp_payload_size = min pmtud.min_fail_udp_payload_size p }))

unfoldable pub finished : Pmtud → Bool
finished pmtud = leb (length pmtud.probes) pmtud.mtu_idx
