-- ===== src/AckTracker/Add.antt =====
-- `ngtcp2_acktr_add` of lib/ngtcp2_acktr.c: entries grow and join, and stand for one packet more.
mod Ents
use zngtcp.Base.{
  ℕ, suc, ◌+◌, ◌-◌, ◌≤◌, ◌<◌, ◌≡◌, refl, inl, inr, List, [], ◌∷◌, Option, none, some, Bool, true,
  false, ◌&&◌, ◌||◌, Bool-cases, Outcome, ok, ◌>>=◌, ltb, leb, ◌==◌, length, arith, if◌then◌else◌,
  max, ◌⊎◌, length-take,
}
use zngtcp.AckTracker.{AcktrEntry, AckTracker, new_entry, max_ent}
use zngtcp.AckTracker.Insert.{
  raised, add_front, add_last, add_between, add_ents, acktr_add, within_max, with_ents,
}
use zngtcp.AckTracker.Tracked.{
  tracked, Ranges, Ranges-weaken, take-Ranges, From, take-From, top, IsTracker,
}
use zngtcp.AckTracker.Add.Ents.{add_ents-AddsOk}

new-top :
    (o : Option ℕ) (n : ℕ)
    → elim (if elim o [ none ↦ true | some m ↦ ltb m n ] then some n else o) as (λ x. ℕ) [
      | none ↦ 0
      | some m ↦ suc m
    ]
      ≡ max (elim o [ none ↦ 0 | some m ↦ suc m ]) (suc n)
new-top none n = ground arith
new-top (some m) n = ground arith

within_max-From :
    (bound : ℕ) (es : List AcktrEntry)
    → Ranges bound es
    → length es ≤ suc max_ent
    → (floor : ℕ) × From floor es (within_max es)
      × (Ranges bound (within_max es) × (length (within_max es) ≤ max_ent))
      × ((floor ≡ 0) ⊎ (length (within_max es) ≡ max_ent))
unfolding within_max
within_max-From bound es r le = elim (Bool-cases (ltb max_ent (length es))) [
  | inl many ↦
      let (floor, low, from) = take-From bound (length es - 1) es r in
      let len = length-take (length es - 1) es in
      rw (many) (
        floor,
        from,
        (take-Ranges bound (length es - 1) es r, ground (arith, len, many, le)),
        inr (ground (arith, len, many, le)),
      )
  | inr few ↦ rw (few) (0, λ m. ground arith, (r, ground (arith, few)), inl refl)
]

-- With the packet `n`, `t'` is `t`, where only the lowest packet numbers have gone, and none below 33
-- entries.
pub record IsAdded (n : ℕ) (t t' : AckTracker) : Type 0 where
  pub valid : IsTracker t'
  pub top_of : top t' ≡ max (top t) (suc n)
  pub floor : ℕ
  pub exact : (m : ℕ) → tracked m t'.ents ≡ ((tracked m t.ents || m == n) && leb floor m)
  pub full : (floor ≡ 0) ⊎ (length t'.ents ≡ max_ent)

-- To a tracker whose entries go down from the largest packet number with gaps in between and are 33 at
-- most, a packet that is not tracked is added without a failure. The result is such a tracker again,
-- with the larger of the two as its largest packet number. It tracks what was tracked and the packet,
-- from a number on that is 0 unless there are 33 entries.
pub acktr_add-IsAdded :
    (t : AckTracker) (n : ℕ) (active_ack : Bool) (ts : ℕ)
    → IsTracker t
    → tracked n t.ents ≡ false
    → (t' : AckTracker) × (acktr_add t n active_ack ts ≡ ok t') × IsAdded n t t'
unfolding acktr_add
acktr_add-IsAdded t n active_ack ts valid new =
    let bound = max (top t) (suc n) in
    let wide = Ranges-weaken (top t) bound t.ents (omega arith) valid.ranges in
    let (es, is, adds) = add_ents-AddsOk bound n ts t.ents wide (omega arith) new in
    let (floor, from, (ranges, few), full) =
      within_max-From bound es adds.ranges (omega (arith, adds.short, valid.few)) in
    let same : top (with_ents t n active_ack ts es) ≡ bound = new-top t.max_pkt_num n in
    (
      with_ents t n active_ack ts es,
      ground (arith, is),
      record {
        valid = record { ranges = rw (same) ranges; few = few };
        top_of = same;
        floor = floor;
        exact = λ m. ground (arith, from m, adds.exact m);
        full = full;
      },
    )
