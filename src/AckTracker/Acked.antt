-- ===== src/AckTracker/Acked.antt =====
-- The loops of `ngtcp2_acktr_recv_ack` in lib/ngtcp2_acktr.c find an ACK that is acknowledged.
use zngtcp.Base.{
  ℕ, ◌+◌, ◌-◌, ◌≤◌, ◌≡◌, refl, ap, sym, ◌∙◌, get_elem-drop, inl, inr, List, [], ◌∷◌, Option, none,
  some, true, ◌&&◌, ◌||◌, Bool-cases, leb, drop, get_elem?, arith, if◌then◌else◌,
}
use zngtcp.Frame.{Ack, AckRange}
use zngtcp.AckTracker.{AckEntry, sent_before, match_ranges, shifted, acked_index}
use zngtcp.AckTracker.Acknowledged.{acknowledged, in_ranges}

-- What the search for the acknowledged ACK finds
sent_before-le :
    (n : ℕ) (acks : List AckEntry) (a : AckEntry)
    → get_elem? acks (sent_before n acks) ≡ some a
    → a.pkt_num ≤ n
unfolding sent_before
sent_before-le n [] a is = absurd (ground (arith, is))
sent_before-le n (b ∷ acks) a is = elim (Bool-cases (leb b.pkt_num n)) [
  | inl found ↦ ground (arith, found, is)
  | inr next ↦ sent_before-le n acks a (ground (arith, next, is))
]

-- The ACK at `j` was sent in a packet that the ranges acknowledge.
abbrev AckedIn : ℕ → List AckRange → List AckEntry → ℕ → Type 0
AckedIn min rs acks j =
    (a : AckEntry) × (get_elem? acks j ≡ some a) × (in_ranges a.pkt_num min rs ≡ true)

shifted-some :
    (k j : ℕ) (later : Option ℕ)
    → shifted k later ≡ some j
    → (i : ℕ) × (later ≡ some i) × (j ≡ i + k)
shifted-some k j none is = absurd (ground (arith, is))
shifted-some k j (some i) is = (i, refl, ground (arith, is))

one_range-AckedIn :
    (largest smallest : ℕ) (rs : List AckRange) (acks : List AckEntry) (j : ℕ) (o : Option AckEntry)
    (later : Option ℕ)
    → get_elem? acks (sent_before largest acks) ≡ o
    → ((i : ℕ) → later ≡ some i → AckedIn smallest rs (drop (sent_before largest acks) acks) i)
    → elim o as (λ x. Option ℕ) [
      | none ↦ none
      | some a ↦
          if leb smallest a.pkt_num
          then some (sent_before largest acks)
          else shifted (sent_before largest acks) later
    ]
      ≡ some j
    → (a : AckEntry) × (get_elem? acks j ≡ some a)
      × (((leb a.pkt_num largest && leb smallest a.pkt_num) || in_ranges a.pkt_num smallest rs)
          ≡ true)
one_range-AckedIn largest smallest rs acks j none later at in_later is = absurd (ground (arith, is))
one_range-AckedIn largest smallest rs acks j (some a) later at in_later is =
    let k = sent_before largest acks in
    elim (Bool-cases (leb smallest a.pkt_num)) [
      | inl here ↦
          let same : k ≡ j = ground (arith, here, is) in
          let low = sent_before-le largest acks a at in
          (a, ap (get_elem? acks) (sym same) ∙ at, ground (arith, here, low))
      | inr below ↦
          let (i, is_later, same) = shifted-some k j later (ground (arith, below, is)) in
          let (b, at_b, inside) = in_later i is_later in
          (
            b,
            ap (get_elem? acks) same ∙ sym (get_elem-drop k acks i) ∙ at_b,
            ground (arith, inside),
          )
    ]

match_ranges-AckedIn :
    (min : ℕ) (rs : List AckRange) (acks : List AckEntry) (j : ℕ)
    → match_ranges min rs acks ≡ some j
    → AckedIn min rs acks j
unfolding match_ranges in_ranges
match_ranges-AckedIn min [] acks j is = absurd (ground (arith, is))
match_ranges-AckedIn min (r ∷ rs) acks j is =
    let largest = min - (r.gap + 2) in
    let smallest = largest - r.len in
    let rest = drop (sent_before largest acks) acks in
    one_range-AckedIn largest smallest rs acks j (get_elem? acks (sent_before largest acks))
      (match_ranges smallest rs rest) refl (match_ranges-AckedIn smallest rs rest) is

pub acked_index-acknowledged :
    (acks : List AckEntry) (fr : Ack) (j : ℕ)
    → acked_index acks fr ≡ some j
    → (a : AckEntry) × (get_elem? acks j ≡ some a) × (acknowledged a.pkt_num fr ≡ true)
unfolding acked_index acknowledged
acked_index-acknowledged acks fr j is =
    let smallest = fr.largest_ack - fr.first_ack_range in
    let at = sent_before fr.largest_ack acks in
    let rest = drop at acks in
    one_range-AckedIn fr.largest_ack smallest fr.ranges acks j (get_elem? acks at)
      (match_ranges smallest fr.ranges rest) refl (match_ranges-AckedIn smallest fr.ranges rest) is
