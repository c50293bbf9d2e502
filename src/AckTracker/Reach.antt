-- ===== src/AckTracker/Reach.antt =====
-- The steps of the tracker in lib/ngtcp2_acktr.c, in the order in which a connection makes them
use zngtcp.Base.{
  ℕ, ◌-◌, ◌≤◌, ◌≡◌, sym, ◌∙◌, inl, inr, List, [], ◌∷◌, Option, none, some, Bool, false, Bool-cases,
  Outcome, ok, fault, ◌>>◌, assert, ◌==◌, ltb, length, arith, if◌then◌else◌,
}
use mathlib.Core.Path.{subst}
use zngtcp.Frame.{Ack}
use zngtcp.AckTracker.{
  AcktrEntry, AckTracker, acktr_init, forget, above, from_key, add_ack, acktr_recv_ack, commit_ack,
  acktr_immediate_ack, increase_ecn_counts,
}
use zngtcp.AckTracker.Frames.{create_ack_frame, frame_of_ents, require_active_ack}
use zngtcp.AckTracker.Insert.{acktr_add}
use zngtcp.AckTracker.Add.{acktr_add-IsAdded}
use zngtcp.AckTracker.Remove.{acktr_recv_ack-IsTracker}
use zngtcp.AckTracker.Tracked.{tracked, Ranges, top, IsTracker}

-- The operations; a packet that is added is not a tracked one.
pub data Step : AckTracker → AckTracker → Type 0 where
  add :
      {t t' : AckTracker} (n : ℕ) (active_ack : Bool) (ts : ℕ)
      → tracked n t.ents ≡ false
      → acktr_add t n active_ack ts ≡ ok t'
      → Step t t'
  forgetting : {t t' : AckTracker} (n : ℕ) → forget t n ≡ ok t' → Step t t'
  sent_ack : {t : AckTracker} (n largest_ack : ℕ) → Step t (add_ack t n largest_ack)
  recv_ack : {t t' : AckTracker} (fr : Ack) → acktr_recv_ack t fr ≡ ok t' → Step t t'
  commit : {t : AckTracker} → Step t (commit_ack t)
  at_once : {t : AckTracker} → Step t (acktr_immediate_ack t)
  ecn : {t : AckTracker} (mark : ℕ) → Step t (increase_ecn_counts t mark)
  create :
      {t t' : AckTracker} (is_1rtt : Bool) (ts ack_delay exponent : ℕ) (fr : Option Ack)
      → create_ack_frame t is_1rtt ts ack_delay exponent ≡ ok (fr, t')
      → Step t t'

-- From the new tracker
pub data Reachable : AckTracker → Type 0 where
  initially : Reachable acktr_init
  after : {t t' : AckTracker} → Reachable t → Step t t' → Reachable t'

ok-injective : {t t' : AckTracker} → ok t ≡ ok t' → t ≡ t'
ok-injective e = ground (arith, e)

above-Ranges :
    (bound key : ℕ) (es : List AcktrEntry)
    → Ranges bound es
    → Ranges bound (above key es) × (length (above key es) ≤ length es)
unfolding above
above-Ranges bound key [] r = (tt, omega arith)
above-Ranges bound key (e ∷ es) r = elim (Bool-cases (ltb key e.pkt_num)) [
  | inl over ↦
      let (rest, short) = above-Ranges (e.pkt_num - e.len) key es r.3 in
      rw (over) ((r.0, r.1, r.2, rest), omega (arith, short))
  | inr under ↦ rw (under) (tt, omega arith)
]

forget-above :
    (t t' : AckTracker) (n : ℕ) (es : List AcktrEntry)
    → elim es as (λ x. Outcome AckTracker) [
      | [] ↦ fault
      | e ∷ es ↦ (do assert (e.pkt_num == n); ok (record t { ents = above n t.ents }))
    ]
      ≡ ok t'
    → IsTracker t
    → IsTracker t'
forget-above t t' n [] is valid = absurd (ground (arith, is))
forget-above t t' n (e ∷ es) is valid =
    let (ranges, short) = above-Ranges (top t) n t.ents valid.ranges in
    let same : record t { ents = above n t.ents } ≡ t' = ground (arith, is) in
    subst IsTracker same (record { ranges = ranges; few = omega (arith, short, valid.few) })

forget-IsTracker : (t t' : AckTracker) (n : ℕ) → forget t n ≡ ok t' → IsTracker t → IsTracker t'
unfolding forget
forget-IsTracker t t' n is valid = forget-above t t' n (from_key n t.ents) is valid

ents-IsTracker :
    (t t' : AckTracker) (is_1rtt : Bool) (ts exponent : ℕ) (fr : Option Ack) (es : List AcktrEntry)
    (o : Option ℕ)
    → frame_of_ents t is_1rtt ts exponent es o ≡ ok (fr, t')
    → IsTracker t
    → IsTracker t'
unfolding frame_of_ents commit_ack
ents-IsTracker t t' is_1rtt ts exponent fr [] o is valid =
    let same : commit_ack t ≡ t' = ground (arith, is) in
    subst IsTracker same (record { ranges = valid.ranges; few = valid.few })
ents-IsTracker t t' is_1rtt ts exponent fr (e ∷ es) none is valid = absurd (ground (arith, is))
ents-IsTracker t t' is_1rtt ts exponent fr (e ∷ es) (some m) is valid =
    let same : t ≡ t' = ground (arith, is) in subst IsTracker same valid

create-IsTracker :
    (t t' : AckTracker) (is_1rtt : Bool) (ts ack_delay exponent : ℕ) (fr : Option Ack)
    → create_ack_frame t is_1rtt ts ack_delay exponent ≡ ok (fr, t')
    → IsTracker t
    → IsTracker t'
unfolding create_ack_frame
create-IsTracker t t' is_1rtt ts ack_delay exponent fr is valid =
    elim (Bool-cases (require_active_ack t (if t.immediate_ack then 0 else ack_delay) ts)) [
      | inl due ↦
          ents-IsTracker t t' is_1rtt ts exponent fr t.ents t.max_pkt_num (ground (arith, is, due))
            valid
      | inr early ↦ let same : t ≡ t' = ground (arith, is, early) in subst IsTracker same valid
    ]

step-IsTracker : (t t' : AckTracker) → Step t t' → IsTracker t → IsTracker t'
unfolding add_ack commit_ack acktr_immediate_ack increase_ecn_counts
step-IsTracker t t' (add n active_ack ts new is) valid =
    let (t'', is', added) = acktr_add-IsAdded t n active_ack ts valid new in
    subst IsTracker (ok-injective (sym is' ∙ is)) added.valid
step-IsTracker t t' (forgetting n is) valid = forget-IsTracker t t' n is valid
step-IsTracker t t' (sent_ack n largest_ack) valid = record {
  ranges = valid.ranges;
  few = valid.few;
}
step-IsTracker t t' (recv_ack fr is) valid =
    let (t'', is', kept) = acktr_recv_ack-IsTracker t fr valid in
    subst IsTracker (ok-injective (sym is' ∙ is)) kept
step-IsTracker t t' commit valid = record { ranges = valid.ranges; few = valid.few }
step-IsTracker t t' at_once valid = record { ranges = valid.ranges; few = valid.few }
step-IsTracker t t' (ecn mark) valid = record { ranges = valid.ranges; few = valid.few }
step-IsTracker t t' (create is_1rtt ts ack_delay exponent fr is) valid =
    create-IsTracker t t' is_1rtt ts ack_delay exponent fr is valid

-- In every tracker that the operations reach from the new one, where the packets that are added are not
-- tracked ones, the entries go down from the largest packet number with gaps in between, and there are
-- 33 at most.
pub reachable-IsTracker : (t : AckTracker) → Reachable t → IsTracker t
reachable-IsTracker t initially = record { ranges = tt; few = omega arith }
reachable-IsTracker t (after before step) = step-IsTracker _ t step (reachable-IsTracker _ before)
