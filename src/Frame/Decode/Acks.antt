-- ===== src/Frame/Decode/Acks.antt =====
-- The decoder of ACK and ACK_ECN frames in lib/ngtcp2_pkt.c.
use zngtcp.Base.{
  ℕ, zero, suc, ◌+◌, ◌-◌, ◌*◌, ◌/◌, ◌^◌, min, List, [], ◌∷◌, Outcome, ok, ◌>>=◌, ◌>>◌, guard,
  frame_encoding, length, ltb, ◌==◌, Option, none, some, not, ◌||◌, if◌then◌else◌,
}
use zngtcp.Conv.{peek, get_uvarint, get_uvarintlen}
use zngtcp.Frame.{Frame, AckRange, Ecn, max_ack_ranges}
use zngtcp.Frame.FrameType
use zngtcp.Frame.Cursor.{advance, require, measure, skip, skip_all, finish}

-- The length checks of the three ECN counts.
unfoldable pub skip_ecn : ℕ → ℕ → ℕ → List ℕ → Outcome (ℕ × List ℕ)
unfolding require skip_all
skip_ecn type payloadlen len p =
    if type == FrameType.ack_ecn
    then (do require payloadlen (len + 3); skip_all 3 payloadlen (len + 3) p)
    else ok (len, p)

-- `for (i = 0; i < max_rangecnt; ++i)`: the ranges that are stored
unfoldable pub get_ranges : ℕ → List ℕ → Outcome (List AckRange × List ℕ)
get_ranges zero p = ok ([], p)
get_ranges (suc count) p = do
  (gap, p1) ← get_uvarint p
  (len, p2) ← get_uvarint p1
  (ranges, q) ← get_ranges count p2
  ok (record { gap = gap; len = len } ∷ ranges, q)

-- `for (; i < rangecnt; ++i)`: the ranges that are passed over
unfoldable pub pass_ranges : ℕ → List ℕ → Outcome (List ℕ)
unfolding advance
pass_ranges zero p = ok p
pass_ranges (suc count) p = do
  n1 ← get_uvarintlen p
  p1 ← advance n1 p
  n2 ← get_uvarintlen p1
  p2 ← advance n2 p1
  pass_ranges count p2

unfoldable pub get_ecn : ℕ → List ℕ → Outcome (Option Ecn × List ℕ)
get_ecn type p =
    if type == FrameType.ack_ecn
    then (do
      (ect0, p1) ← get_uvarint p
      (ect1, p2) ← get_uvarint p1
      (ce, p3) ← get_uvarint p2
      ok (some (record { ect0 = ect0; ect1 = ect1; ce = ce }), p3))
    else ok (none, p)

-- The length checks from the first range on, once the number of the others is known.
unfoldable pub measure_ranges : ℕ → ℕ → ℕ → ℕ → List ℕ → Outcome (ℕ × List ℕ)
measure_ranges type payloadlen len rangecnt p = do
  guard (not (ltb ((2 ^ 64 - 1) / 2) rangecnt || ltb (payloadlen - len) (rangecnt * 2)))
      frame_encoding
  (len1, p1) ← skip payloadlen (len + rangecnt * 2) p
  (len2, p2) ← skip_all (rangecnt * 2) payloadlen len1 p1
  skip_ecn type payloadlen len2 p2

-- The first pass: the number of ranges, the length of its field and that of the frame.
unfoldable pub measure_ack : ℕ → ℕ → List ℕ → Outcome (ℕ × ℕ × ℕ)
measure_ack type payloadlen start = do
  (len1, p1) ← skip payloadlen 5 start
  (len2, p2) ← skip payloadlen len1 p1
  (nrangecnt, len3) ← measure payloadlen len2 p2
  (vi, p3) ← get_uvarint p2
  (len, _) ← measure_ranges type payloadlen len3 vi p3
  ok (vi, nrangecnt, len)

unfoldable pub decode_ack_frame : List ℕ → Outcome (Frame × ℕ)
unfolding require peek advance finish
decode_ack_frame payload = do
  require (length payload) 5
  type ← peek payload
  start ← advance 1 payload
  (rangecnt, nrangecnt, len) ← measure_ack type (length payload) start
  let max_rangecnt = min max_ack_ranges rangecnt
  (largest_ack, q1) ← get_uvarint start
  (ack_delay, q2) ← get_uvarint q1
  q3 ← advance nrangecnt q2
  (first_ack_range, q4) ← get_uvarint q3
  (ranges, q5) ← get_ranges max_rangecnt q4
  q6 ← pass_ranges (rangecnt - max_rangecnt) q5
  (ecn, end) ← get_ecn type q6
  finish payload end len (
      Frame.ack (record {
        largest_ack = largest_ack;
        ack_delay = ack_delay;
        ack_delay_unscaled = 0;
        ecn = ecn;
        first_ack_range = first_ack_range;
        ranges = ranges;
      }))
