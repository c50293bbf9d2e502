-- ===== src/AckTracker/Acknowledged.antt =====
-- The ranges of the ACK frame that `ngtcp2_acktr_create_ack_frame` of lib/ngtcp2_acktr.c makes.
use zngtcp.Base.{
  ℕ, zero, suc, ◌+◌, ◌-◌, ◌<◌, ◌≡◌, refl, List, [], ◌∷◌, Bool, false, ◌&&◌, ◌||◌, ok, leb, length,
  take, min, arith,
}
use zngtcp.Frame.{Ack, AckRange}
use zngtcp.Packet.AckRanges.{validate_ranges}
use zngtcp.AckTracker.{AcktrEntry}
use zngtcp.AckTracker.Frames.{ranges_of}
use zngtcp.AckTracker.Tracked.{tracked, Ranges}

-- The ranges below the packet `last` acknowledge `n`.
unfoldable pub in_ranges : ℕ → ℕ → List AckRange → Bool
in_ranges n last [] = false
in_ranges n last (r ∷ rs) =
    let largest = last - (r.gap + 2) in
    let smallest = largest - r.len in (leb n largest && leb smallest n) || in_ranges n smallest rs

-- The frame acknowledges `n`.
unfoldable pub acknowledged : ℕ → Ack → Bool
unfolding in_ranges
acknowledged n fr =
    let smallest = fr.largest_ack - fr.first_ack_range in
    (leb n fr.largest_ack && leb smallest n) || in_ranges n smallest fr.ranges

-- What a range says of its entry
largest-eq : (last n : ℕ) → n < last - 1 → last - (last - n - 2 + 2) ≡ n
largest-eq last n lt = omega (arith, lt)

pub Ranges-next :
    (bound : ℕ) (e : AcktrEntry) (es : List AcktrEntry)
    → Ranges bound (e ∷ es)
    → Ranges (e.pkt_num - (e.len - 1) - 1) es
Ranges-next bound e es (lt, one, le, r) =
    let same : e.pkt_num - (e.len - 1) - 1 ≡ e.pkt_num - e.len = omega (arith, one, le) in
    rw (same) r

pub ranges_of-in_ranges :
    (n k last : ℕ) (es : List AcktrEntry)
    → Ranges (last - 1) es
    → in_ranges n last (ranges_of k last es) ≡ tracked n (take k es)
unfolding in_ranges ranges_of tracked
ranges_of-in_ranges n zero last es r = refl
ranges_of-in_ranges n (suc k) last [] r = refl
ranges_of-in_ranges n (suc k) last (e ∷ es) r =
    let rest =
      ranges_of-in_ranges n k (e.pkt_num - (e.len - 1)) es (Ranges-next (last - 1) e es r) in
    rw (largest-eq last e.pkt_num r.0) ground (arith, rest, r.1)

pub ranges_of-validate_ranges :
    (k last : ℕ) (es : List AcktrEntry)
    → Ranges (last - 1) es
    → validate_ranges last (ranges_of k last es) 0 ≡ ok tt
unfolding validate_ranges ranges_of
ranges_of-validate_ranges zero last es r = refl
ranges_of-validate_ranges (suc k) last [] r = refl
ranges_of-validate_ranges (suc k) last (e ∷ es) r =
    let rest =
      ranges_of-validate_ranges k (e.pkt_num - (e.len - 1)) es (Ranges-next (last - 1) e es r) in
    rw (largest-eq last e.pkt_num r.0) ground (arith, rest, r.1, r.2)

pub length-ranges_of :
    (k last : ℕ) (es : List AcktrEntry) → length (ranges_of k last es) ≡ min k (length es)
unfolding ranges_of
length-ranges_of zero last es = omega arith
length-ranges_of (suc k) last [] = omega arith
length-ranges_of (suc k) last (e ∷ es) =
    omega (arith, length-ranges_of k (e.pkt_num - (e.len - 1)) es)
