-- ===== src/AckTracker/Create.antt =====
-- `ngtcp2_acktr_create_ack_frame` of lib/ngtcp2_acktr.c: the frame acknowledges what is tracked.
use zngtcp.Base.{
  ℕ, zero, suc, ◌+◌, ◌-◌, ◌≤◌, ◌≡◌, refl, ap, sym, ◌∙◌, inl, inr, List, [], ◌∷◌, Option, none, some,
  Bool, true, ◌&&◌, ◌||◌, Bool-cases, ok, leb, ◌==◌, length, take, min, arith, if◌then◌else◌, ◌⊎◌,
}
use mathlib.Core.Path.{subst}
use zngtcp.Frame.{Ack, max_ack_ranges}
use zngtcp.Packet.AckRanges.{validate_ack}
use zngtcp.AckTracker.{AcktrEntry, AckTracker}
use zngtcp.AckTracker.Frames.{
  FirstRange, first_range, frame_of, frame_of_ents, create_ack_frame, require_active_ack,
}
use zngtcp.AckTracker.Acknowledged.{
  acknowledged, Ranges-next, ranges_of-in_ranges, ranges_of-validate_ranges, length-ranges_of,
}
use zngtcp.AckTracker.Tracked.{tracked, Ranges, From, take-From, top, IsTracker}

-- The first range `f` and the entries that are left stand for the entries and for the packet `m`.
record Splits (m : ℕ) (es : List AcktrEntry) (f : FirstRange) : Type 0 where
  largest : f.largest_ack ≡ m
  first : f.first_ack_range ≤ m
  last : m - f.first_ack_range ≡ f.last_pkt_num
  ranges : Ranges (f.last_pkt_num - 1) f.left
  few : length f.left ≤ length es
  exact :
      (n : ℕ) → ((leb n m && leb f.last_pkt_num n) || tracked n f.left) ≡ (tracked n es || n == m)

first_range-Splits :
    (m ts : ℕ) (e : AcktrEntry) (es : List AcktrEntry)
    → Ranges (suc m) (e ∷ es)
    → (f : FirstRange) × (first_range m ts e es ≡ ok f) × Splits m (e ∷ es) f
unfolding first_range tracked
first_range-Splits m ts e es r = elim (Bool-cases (e.pkt_num == m)) [
  | inl is ↦ (
    record {
      largest_ack = e.pkt_num;
      largest_ack_ts = e.tstamp;
      first_ack_range = e.len - 1;
      last_pkt_num = e.pkt_num - (e.len - 1);
      left = es;
    },
    ground (arith, is),
    record {
      largest = ground (arith, is);
      first = ground (arith, is, r.2);
      last = ground (arith, is);
      ranges = Ranges-next (suc m) e es r;
      few = omega arith;
      exact = λ n. ground (arith, is, r.1, r.2);
    },
  )
  | inr other ↦ elim (Bool-cases (e.pkt_num + 1 == m)) [
    | inl next ↦ (
      record {
        largest_ack = m;
        largest_ack_ts = ts;
        first_ack_range = e.len;
        last_pkt_num = e.pkt_num - (e.len - 1);
        left = es;
      },
      ground (arith, other, next),
      record {
        largest = refl;
        first = ground (arith, next, r.2);
        last = ground (arith, next, r.1, r.2);
        ranges = Ranges-next (suc m) e es r;
        few = omega arith;
        exact = λ n. ground (arith, next, r.1, r.2);
      },
    )
    | inr apart ↦ (
      record {
        largest_ack = m;
        largest_ack_ts = ts;
        first_ack_range = 0;
        last_pkt_num = m;
        left = e ∷ es;
      },
      ground (arith, other, apart, r.0),
      record {
        largest = refl;
        first = omega arith;
        last = omega arith;
        ranges = (ground (arith, other, apart, r.0), r.1, r.2, r.3);
        few = omega arith;
        exact = λ n. ground arith;
      },
    )
  ]
]

-- The frame names the largest packet and is a valid one, with as many ranges as it can have at most.
-- It acknowledges the tracked packets and the largest, from a number on that is 0 unless there are as
-- many ranges as possible.
pub record IsFrame (m : ℕ) (es : List AcktrEntry) (fr : Ack) : Type 0 where
  pub largest : fr.largest_ack ≡ m
  pub valid : validate_ack fr 0 ≡ ok tt
  pub few : length fr.ranges ≤ max_ack_ranges
  pub floor : ℕ
  pub exact : (n : ℕ) → acknowledged n fr ≡ ((tracked n es || n == m) && leb floor n)
  pub full : (floor ≡ 0) ⊎ (length fr.ranges ≡ max_ack_ranges)

take-whole : (k : ℕ) (es : List AcktrEntry) → length es ≤ k → take k es ≡ es
take-whole zero [] le = refl
take-whole zero (e ∷ es) le = absurd (omega (arith, le))
take-whole (suc k) [] le = refl
take-whole (suc k) (e ∷ es) le = ap (◌∷◌ e) (take-whole k es (omega (arith, le)))

-- What is kept of the entries by the largest number of ranges
kept-From :
    (last : ℕ) (es : List AcktrEntry)
    → Ranges (last - 1) es
    → (floor : ℕ) × (floor ≤ last)
      × From floor es (take (min (length es) max_ack_ranges) es)
      × ((floor ≡ 0) ⊎ (min (min (length es) max_ack_ranges) (length es) ≡ max_ack_ranges))
kept-From last es r = elim (Bool-cases (leb (length es) max_ack_ranges)) [
  | inl all ↦
      let same = take-whole (min (length es) max_ack_ranges) es (ground (arith, all)) in
      (0, omega arith, λ m. rw (same) ground arith, inl refl)
  | inr many ↦
      let (floor, le, from) = take-From (last - 1) (min (length es) max_ack_ranges) es r in
      (floor, omega (arith, le), from, inr (ground (arith, many)))
]

frame_of-IsFrame :
    (t : AckTracker) (is_1rtt : Bool) (ts exponent m : ℕ) (es : List AcktrEntry) (f : FirstRange)
    → Splits m es f
    → IsFrame m es (frame_of t is_1rtt ts exponent f)
unfolding frame_of validate_ack acknowledged
frame_of-IsFrame t is_1rtt ts exponent m es f s =
    let k = min (length f.left) max_ack_ranges in
    let len = length-ranges_of k f.last_pkt_num f.left in
    let (floor, le, from, full) = kept-From f.last_pkt_num f.left s.ranges in
    let ranges = ranges_of-validate_ranges k f.last_pkt_num f.left s.ranges in
    record {
      largest = s.largest;
      valid = rw (s.largest, s.last) ground (arith, s.first, ranges);
      few = omega (arith, len);
      floor = floor;
      exact = λ n.
          rw (s.largest, s.last, ranges_of-in_ranges n k f.last_pkt_num f.left s.ranges) ground
            (arith, le, from n, s.exact n);
      full = rw (len) full;
    }

top-some :
    (o : Option ℕ) (e : AcktrEntry) (es : List AcktrEntry)
    → Ranges (elim o [ none ↦ 0 | some m ↦ suc m ]) (e ∷ es)
    → (m : ℕ) × (o ≡ some m) × Ranges (suc m) (e ∷ es)
top-some none e es r = absurd (omega (arith, r.0))
top-some (some m) e es r = (m, refl, r)

IsFrame-same :
    (es : List AcktrEntry) (n m : ℕ) (es' : List AcktrEntry) (fr : Ack)
    → es ≡ es'
    → n ≡ m
    → IsFrame m es' fr
    → IsFrame n es fr
IsFrame-same es n m es' fr is same frame = rw (is, same) frame

create-made :
    (t : AckTracker) (is_1rtt : Bool) (ts ack_delay exponent m : ℕ) (e : AcktrEntry)
    (es : List AcktrEntry) (f : FirstRange)
    → require_active_ack t (if t.immediate_ack then 0 else ack_delay) ts ≡ true
    → t.ents ≡ e ∷ es
    → t.max_pkt_num ≡ some m
    → first_range m t.max_pkt_ts e es ≡ ok f
    → create_ack_frame t is_1rtt ts ack_delay exponent
      ≡ ok (some (frame_of t is_1rtt ts exponent f), t)
unfolding create_ack_frame frame_of_ents
create-made t is_1rtt ts ack_delay exponent m e es f due is some_m made =
    simp (due, is, some_m, made) refl

-- Where the entries go down from the largest packet number with gaps in between, where there is one and
-- where an ACK is due, a frame is made without a failure, and the tracker stays. The frame passes the
-- check that the peer makes, names the largest packet number, and acknowledges that packet and those
-- that are tracked, from a number on that is 0 unless the frame has all of its 32 ranges.
pub create_ack_frame-IsFrame :
    (t : AckTracker) (is_1rtt : Bool) (ts ack_delay exponent : ℕ) (e : AcktrEntry)
    (es : List AcktrEntry)
    → IsTracker t
    → t.ents ≡ e ∷ es
    → require_active_ack t (if t.immediate_ack then 0 else ack_delay) ts ≡ true
    → (fr : Ack) × (create_ack_frame t is_1rtt ts ack_delay exponent ≡ ok (some fr, t))
      × (t.max_pkt_num ≡ some fr.largest_ack)
      × IsFrame fr.largest_ack t.ents fr
create_ack_frame-IsFrame t is_1rtt ts ack_delay exponent e es valid is due =
    let r = subst (λ x. Ranges (top t) x) is valid.ranges in
    let (m, some_m, r') = top-some t.max_pkt_num e es r in
    let (f, made, s) = first_range-Splits m t.max_pkt_ts e es r' in
    let frame = frame_of-IsFrame t is_1rtt ts exponent m (e ∷ es) f s in
    let fr = frame_of t is_1rtt ts exponent f in
    (
      fr,
      create-made t is_1rtt ts ack_delay exponent m e es f due is some_m made,
      some_m ∙ ap some (sym frame.largest),
      IsFrame-same t.ents fr.largest_ack m (e ∷ es) fr is frame.largest frame,
    )
