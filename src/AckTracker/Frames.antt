-- ===== src/AckTracker/Frames.antt =====
-- The ACK frames that lib/ngtcp2_acktr.c makes.
use zngtcp.Base.{
  ℕ, zero, suc, ◌+◌, ◌-◌, ◌/◌, ◌%◌, ◌^◌, min, List, [], ◌∷◌, Option, none, some, Bool, not, ◌&&◌,
  Outcome, ok, fault, ◌>>=◌, ◌>>◌, assert, ltb, leb, ◌==◌, length, if◌then◌else◌,
}
use zngtcp.Frame.{Ack, AckRange, max_ack_ranges}
use zngtcp.AckTracker.{uint64_max, AcktrEntry, AckTracker, commit_ack}

-- `ngtcp2_tstamp_elapsed`
unfoldable pub tstamp_elapsed : ℕ → ℕ → ℕ → Bool
tstamp_elapsed base d ts =
    (not (base == uint64_max) && ltb base (uint64_max - d)) && leb (base + d) ts

unfoldable pub require_active_ack : AckTracker → ℕ → ℕ → Bool
unfolding tstamp_elapsed
require_active_ack t max_ack_delay ts = tstamp_elapsed t.first_unacked_ts max_ack_delay ts

-- `fr->ranges` of at most `n` entries, below `last`
unfoldable pub ranges_of : ℕ → ℕ → List AcktrEntry → List AckRange
ranges_of zero last es = []
ranges_of (suc n) last [] = []
ranges_of (suc n) last (e ∷ es) =
    record { gap = last - e.pkt_num - 2; len = e.len - 1 }
    ∷ ranges_of n (e.pkt_num - (e.len - 1)) es

-- The first range: the largest packet, its time, the length, and the entries that are left
pub record FirstRange : Type 0 where
  pub largest_ack : ℕ
  pub largest_ack_ts : ℕ
  pub first_ack_range : ℕ
  pub last_pkt_num : ℕ
  pub left : List AcktrEntry

unfoldable pub first_range : ℕ → ℕ → AcktrEntry → List AcktrEntry → Outcome FirstRange
first_range max_num max_ts e es =
    let last = e.pkt_num - (e.len - 1) in
    if e.pkt_num == max_num
    then ok (record {
      largest_ack = e.pkt_num;
      largest_ack_ts = e.tstamp;
      first_ack_range = e.len - 1;
      last_pkt_num = last;
      left = es;
    })
    else if e.pkt_num + 1 == max_num
    then ok (record {
      largest_ack = max_num;
      largest_ack_ts = max_ts;
      first_ack_range = e.len;
      last_pkt_num = last;
      left = es;
    })
    else (do
      assert (ltb e.pkt_num max_num)
      ok (record {
        largest_ack = max_num;
        largest_ack_ts = max_ts;
        first_ack_range = 0;
        last_pkt_num = max_num;
        left = e ∷ es;
      }))

-- The frame of `is_1rtt` packets has a delay, in microseconds and scaled.
unfoldable pub frame_of : AckTracker → Bool → ℕ → ℕ → FirstRange → Ack
unfolding ranges_of
frame_of t is_1rtt ts exponent f =
    let delay = if is_1rtt then (ts + 2 ^ 64 - f.largest_ack_ts) % 2 ^ 64 else 0 in
    let no_ecn = t.ecn.ect0 == 0 && t.ecn.ect1 == 0 && t.ecn.ce == 0 in
    record {
      largest_ack = f.largest_ack;
      ack_delay = delay / 1000 / 2 ^ exponent;
      ack_delay_unscaled = delay;
      ecn = if no_ecn then none else some t.ecn;
      first_ack_range = f.first_ack_range;
      ranges = ranges_of (min (length f.left) max_ack_ranges) f.last_pkt_num f.left;
    }

-- The frame of the entries, below the largest packet number
unfoldable pub frame_of_ents :
    AckTracker → Bool → ℕ → ℕ → List AcktrEntry → Option ℕ → Outcome (Option Ack × AckTracker)
unfolding first_range frame_of
frame_of_ents t is_1rtt ts exponent [] max_num = ok (none, commit_ack t)
frame_of_ents t is_1rtt ts exponent (e ∷ es) none = fault
frame_of_ents t is_1rtt ts exponent (e ∷ es) (some max_num) = do
  f ← first_range max_num t.max_pkt_ts e es
  ok (some (frame_of t is_1rtt ts exponent f), t)

-- The result is the frame, or none for -1, and the tracker.
unfoldable pub create_ack_frame : AckTracker → Bool → ℕ → ℕ → ℕ → Outcome (Option Ack × AckTracker)
unfolding frame_of_ents
create_ack_frame t is_1rtt ts ack_delay exponent =
    let delay = if t.immediate_ack then 0 else ack_delay in
    let created = frame_of_ents t is_1rtt ts exponent t.ents t.max_pkt_num in
    if require_active_ack t delay ts then created else ok (none, t)
