-- ===== src/AckTracker.antt =====
-- lib/ngtcp2_acktr.c: the packet numbers that are still to be acknowledged. The skip list of entries is
-- the list of them, from the largest packet number down, and the ring buffer of the ACK frames that
-- were sent is the list of its elements, the latest first. Packet numbers are below 2 ^ 62, so the
-- source's 64-bit integers do not overflow; -1 for no packet is `none`. New entries are given memory. The
-- counts of `ecn.ack` belong to the connection, which alone uses them.
pub mod Tracked
pub mod Acknowledged
pub mod Add
pub mod Trim
pub mod Acked
pub mod Passed
pub mod Remove
pub mod Reach
pub mod Create
pub mod Examples
pub mod Insert
pub mod Frames
use zngtcp.Base.{
  ℕ, zero, suc, ◌+◌, ◌-◌, ◌*◌, ◌/◌, ◌%◌, ◌^◌, min, List, [], ◌∷◌, Option, none, some, Bool, true,
  false, not, ◌&&◌, ◌||◌, Outcome, ok, fault, ◌>>=◌, ◌>>◌, assert, ltb, leb, ◌==◌, length, take,
  drop, get_elem?, if◌then◌else◌,
}
use zngtcp.Frame.{Ack, AckRange, Ecn, max_ack_ranges}

abbrev pub uint64_max : ℕ
uint64_max = 2 ^ 64 - 1

-- NGTCP2_ACKTR_MAX_ENT
abbrev pub max_ent : ℕ
max_ent = max_ack_ranges + 1

-- `len` packets, from `pkt_num` down
pub record AcktrEntry : Type 0 where
  pub pkt_num : ℕ
  pub len : ℕ
  pub tstamp : ℕ

-- An ACK frame of the packet `pkt_num`
pub record AckEntry : Type 0 where
  pub largest_ack : ℕ
  pub pkt_num : ℕ

pub record AckTracker : Type 0 where
  pub acks : List AckEntry
  pub ents : List AcktrEntry
  pub first_unacked_ts : ℕ
  pub rx_npkt : ℕ
  pub max_pkt_num : Option ℕ
  pub max_pkt_ts : ℕ
  pub ecn : Ecn
  pub immediate_ack : Bool
  pub active_ack : Bool
  pub cancel_timer : Bool

abbrev pub acktr_init : AckTracker
acktr_init = record {
  acks = [];
  ents = [];
  first_unacked_ts = uint64_max;
  rx_npkt = 0;
  max_pkt_num = none;
  max_pkt_ts = uint64_max;
  ecn = record { ect0 = 0; ect1 = 0; ce = 0 };
  immediate_ack = false;
  active_ack = false;
  cancel_timer = false;
}

abbrev pub new_entry : ℕ → ℕ → AcktrEntry
new_entry pkt_num ts = record { pkt_num = pkt_num; len = 1; tstamp = ts }

-- All before `ngtcp2_ksl_lower_bound` of `key`
unfoldable pub above : ℕ → List AcktrEntry → List AcktrEntry
above key [] = []
above key (e ∷ es) = let rest = above key es in if ltb key e.pkt_num then e ∷ rest else []

unfoldable pub from_key : ℕ → List AcktrEntry → List AcktrEntry
from_key key [] = []
from_key key (e ∷ es) = let rest = from_key key es in if ltb key e.pkt_num then rest else e ∷ es

unfoldable pub forget : AckTracker → ℕ → Outcome AckTracker
unfolding above from_key
forget t pkt_num = elim (from_key pkt_num t.ents) [
  | [] ↦ fault
  | e ∷ es ↦ (do assert (e.pkt_num == pkt_num); ok (record t { ents = above pkt_num t.ents }))
]

unfoldable pub acktr_empty : AckTracker → Bool
acktr_empty t = length t.ents == 0

-- `ngtcp2_ringbuf_push_front` drops the last of 32 elements.
unfoldable pub add_ack : AckTracker → ℕ → ℕ → AckTracker
add_ack t pkt_num largest_ack = record t {
  acks = take 32 (record { largest_ack = largest_ack; pkt_num = pkt_num } ∷ t.acks);
}

-- The last entry loses what is acknowledged.
unfoldable pub trim_last : ℕ → List AcktrEntry → Outcome (List AcktrEntry)
trim_last largest_ack [] = ok []
trim_last largest_ack (e ∷ []) = do
  assert (ltb largest_ack e.pkt_num)
  ok (
      if ltb e.pkt_num (largest_ack + e.len)
      then record e { len = e.pkt_num - largest_ack } ∷ []
      else e ∷ [])
trim_last largest_ack (e ∷ f ∷ es) = do es' ← trim_last largest_ack (f ∷ es); ok (e ∷ es')

unfoldable pub on_ack : AckTracker → ℕ → Outcome AckTracker
unfolding above trim_last
on_ack t j = elim (get_elem? t.acks j) [
  | none ↦ fault
  | some a ↦ (do
    es ← trim_last a.largest_ack (above a.largest_ack t.ents)
    ok (record t { ents = es; acks = take j t.acks }))
]

-- The index of the latest ACK that was sent in a packet up to `largest_ack`; the number of ACKs where
-- there is none
unfoldable pub sent_before : ℕ → List AckEntry → ℕ
sent_before largest_ack [] = 0
sent_before largest_ack (a ∷ acks) =
    let next = sent_before largest_ack acks in if leb a.pkt_num largest_ack then 0 else suc next

abbrev pub shifted : ℕ → Option ℕ → Option ℕ
shifted k o = elim o [ none ↦ none | some i ↦ some (k + i) ]

-- The loop over the ranges, for the ACKs from the one at hand on. The ranges are those of a frame that
-- `ngtcp2_pkt_validate_ack` takes, so no difference is negative.
unfoldable pub match_ranges : ℕ → List AckRange → List AckEntry → Option ℕ
unfolding sent_before
match_ranges min_ack [] acks = none
match_ranges min_ack (r ∷ rs) acks =
    let largest = min_ack - (r.gap + 2) in
    let smallest = largest - r.len in
    let k = sent_before largest acks in
    let later = match_ranges smallest rs (drop k acks) in
    elim (get_elem? acks k) [
      | none ↦ none
      | some a ↦ if leb smallest a.pkt_num then some k else shifted k later
    ]

-- The ACK that `fr` acknowledges, if there is one
unfoldable pub acked_index : List AckEntry → Ack → Option ℕ
unfolding sent_before match_ranges
acked_index acks fr =
    let j = sent_before fr.largest_ack acks in
    let smallest = fr.largest_ack - fr.first_ack_range in
    let later = match_ranges smallest fr.ranges (drop j acks) in
    elim (get_elem? acks j) [
      | none ↦ none
      | some a ↦ if leb smallest a.pkt_num then some j else shifted j later
    ]

unfoldable pub acktr_recv_ack : AckTracker → Ack → Outcome AckTracker
unfolding acked_index
acktr_recv_ack t fr = elim (acked_index t.acks fr) [ none ↦ ok t | some j ↦ on_ack t j ]

unfoldable pub commit_ack : AckTracker → AckTracker
commit_ack t = record t {
  active_ack = false;
  immediate_ack = false;
  cancel_timer = false;
  first_unacked_ts = uint64_max;
  rx_npkt = 0;
}

unfoldable pub acktr_immediate_ack : AckTracker → AckTracker
acktr_immediate_ack t = record t { immediate_ack = true }

-- NGTCP2_ECN_MASK is 3, and the code points are 2, 1 and 3.
unfoldable pub counted : Ecn → ℕ → Ecn
counted counts ecn =
    if ecn % 4 == 2
    then record counts { ect0 = (counts.ect0 + 1) % 2 ^ 64 }
    else if ecn % 4 == 1
    then record counts { ect1 = (counts.ect1 + 1) % 2 ^ 64 }
    else if ecn % 4 == 3
    then record counts { ce = (counts.ce + 1) % 2 ^ 64 }
    else counts

unfoldable pub increase_ecn_counts : AckTracker → ℕ → AckTracker
unfolding counted
increase_ecn_counts t ecn = record t { ecn = counted t.ecn ecn }
