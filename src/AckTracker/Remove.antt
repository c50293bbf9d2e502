-- ===== src/AckTracker/Remove.antt =====
-- `acktr_on_ack` and `ngtcp2_acktr_recv_ack` of lib/ngtcp2_acktr.c: what an acknowledged ACK frame made
-- known to the peer is tracked no more.
use zngtcp.Base.{
  ℕ, suc, ◌≡◌, refl, inl, inr, List, Option, none, some, true, false, Outcome, ok, take, get_elem?,
  All, arith, ◌⊎◌,
}
use zngtcp.Frame.{Ack}
use zngtcp.AckTracker.{
  AcktrEntry, AckEntry, AckTracker, above, trim_last, on_ack, acked_index, acktr_recv_ack,
}
use zngtcp.AckTracker.Acknowledged.{acknowledged}
use zngtcp.AckTracker.Acked.{acked_index-acknowledged}
use zngtcp.AckTracker.Passed.{AreDescending, acked_index-passed}
use zngtcp.AckTracker.Trim.{trim_last-above}
use zngtcp.AckTracker.Tracked.{top, From, IsTracker}

-- `t'` is `t`, which tracks the packets from `floor` on.
pub record IsPruned (floor : ℕ) (t t' : AckTracker) : Type 0 where
  pub valid : IsTracker t'
  pub same_top : top t' ≡ top t
  pub from : From floor t.ents t'.ents

-- `fr` acknowledges the packet of the ACK at `j` and of none that was sent after it, and `floor` is the number behind what that ACK named.
pub record Acked (fr : Ack) (acks : List AckEntry) (floor j : ℕ) : Type 0 where
  pub ack : AckEntry
  pub found : get_elem? acks j ≡ some ack
  pub acked : acknowledged ack.pkt_num fr ≡ true
  pub latest : All (λ a. acknowledged a.pkt_num fr ≡ false) (take j acks)
  pub behind : floor ≡ suc ack.largest_ack

on_ack-trimmed :
    (t : AckTracker) (j : ℕ) (a : AckEntry) (es : List AcktrEntry)
    → get_elem? t.acks j ≡ some a
    → trim_last a.largest_ack (above a.largest_ack t.ents) ≡ ok es
    → on_ack t j ≡ ok (record t { ents = es; acks = take j t.acks })
unfolding on_ack
on_ack-trimmed t j a es at trimmed = cc

on_ack-IsPruned :
    (t : AckTracker) (j : ℕ) (a : AckEntry)
    → IsTracker t
    → get_elem? t.acks j ≡ some a
    → (t' : AckTracker) × (on_ack t j ≡ ok t')
      × IsPruned (suc a.largest_ack) t t'
      × (t'.acks ≡ take j t.acks)
on_ack-IsPruned t j a valid at =
    let (es, trimmed, ranges, short, from) =
      trim_last-above (top t) a.largest_ack t.ents valid.ranges in
    (
      record t { ents = es; acks = take j t.acks },
      on_ack-trimmed t j a es at trimmed,
      record {
        valid = record { ranges = ranges; few = omega (arith, short, valid.few) };
        same_top = refl;
        from = from;
      },
      refl,
    )

received-IsTracker :
    (t : AckTracker) (fr : Ack)
    → IsTracker t
    → (o : Option ℕ) → acked_index t.acks fr ≡ o
    → (t' : AckTracker) × (elim o as (λ x. Outcome AckTracker) [ none ↦ ok t | some j ↦ on_ack t j ]
        ≡ ok t')
      × IsTracker t'
received-IsTracker t fr valid none is = (t, refl, valid)
received-IsTracker t fr valid (some j) is =
    let (a, found, acked) = acked_index-acknowledged t.acks fr j is in
    let (t', step, pruned, acks) = on_ack-IsPruned t j a valid found in (t', step, pruned.valid)

pub acktr_recv_ack-IsTracker :
    (t : AckTracker) (fr : Ack)
    → IsTracker t
    → (t' : AckTracker) × (acktr_recv_ack t fr ≡ ok t') × IsTracker t'
unfolding acktr_recv_ack
acktr_recv_ack-IsTracker t fr valid = received-IsTracker t fr valid (acked_index t.acks fr) refl

received :
    (t : AckTracker) (fr : Ack)
    → IsTracker t
    → AreDescending t.acks
    → (o : Option ℕ) → acked_index t.acks fr ≡ o
    → (t' : AckTracker) × (elim o as (λ x. Outcome AckTracker) [ none ↦ ok t | some j ↦ on_ack t j ]
        ≡ ok t')
      × (((t' ≡ t) × All (λ a. acknowledged a.pkt_num fr ≡ false) t.acks)
          ⊎ ((floor : ℕ) × (j : ℕ) × Acked fr t.acks floor j
              × IsPruned floor t t'
              × (t'.acks ≡ take j t.acks)))
received t fr valid d none is = (t, refl, inl (refl, rw is at (acked_index-passed t.acks fr d)))
received t fr valid d (some j) is =
    let (a, found, acked) = acked_index-acknowledged t.acks fr j is in
    let (t', step, pruned, acks) = on_ack-IsPruned t j a valid found in
    let why : Acked fr t.acks (suc a.largest_ack) j = record {
      ack = a;
      found = found;
      acked = acked;
      latest = rw is at (acked_index-passed t.acks fr d);
      behind = refl;
    } in
    (t', step, inr (suc a.largest_ack, j, why, pruned, acks))

-- To a tracker whose entries go down from the largest packet number with gaps in between and are 33
-- at most, and whose ACKs were sent in packets that do not rise from the latest on, an ACK frame is
-- a step without a failure to such a tracker again, with the same largest packet number. If the
-- frame acknowledges no packet that one of the ACKs was sent in, it is the same tracker. Otherwise
-- the latest ACK whose packet it acknowledges is taken: exactly the packets up to the largest that
-- this ACK named are tracked no more, and the ACKs that were sent after it are kept.
pub acktr_recv_ack-IsPruned :
    (t : AckTracker) (fr : Ack)
    → IsTracker t
    → AreDescending t.acks
    → (t' : AckTracker) × (acktr_recv_ack t fr ≡ ok t')
      × (((t' ≡ t) × All (λ a. acknowledged a.pkt_num fr ≡ false) t.acks)
          ⊎ ((floor : ℕ) × (j : ℕ) × Acked fr t.acks floor j
              × IsPruned floor t t'
              × (t'.acks ≡ take j t.acks)))
unfolding acktr_recv_ack
acktr_recv_ack-IsPruned t fr valid d = received t fr valid d (acked_index t.acks fr) refl
