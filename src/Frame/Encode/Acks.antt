-- ===== src/Frame/Encode/Acks.antt =====
-- The encoder of ACK and ACK_ECN frames in lib/ngtcp2_pkt.c.
use zngtcp.Base.{
  ℕ, ◌+◌, List, [], ◌∷◌, ◌++◌, Outcome, ok, ◌>>=◌, ◌>>◌, guard, nobuf, leb, Option, none, some,
  length,
}
use zngtcp.Conv.{put_uvarint, put_uvarintlen}
use zngtcp.Frame.{Ack, AckRange, Ecn}
use zngtcp.Frame.FrameType
use zngtcp.Frame.Cursor.{write}

unfoldable pub put_rangeslen : List AckRange → Outcome ℕ
put_rangeslen [] = ok 0
put_rangeslen (r ∷ rs) = do
  n1 ← put_uvarintlen r.gap
  n2 ← put_uvarintlen r.len
  n ← put_rangeslen rs
  ok (n1 + n2 + n)

unfoldable pub put_ranges : List AckRange → Outcome (List ℕ)
put_ranges [] = ok []
put_ranges (r ∷ rs) = do
  b1 ← put_uvarint r.gap
  b2 ← put_uvarint r.len
  b ← put_ranges rs
  ok (b1 ++ (b2 ++ b))

unfoldable pub put_ecnlen : Option Ecn → Outcome ℕ
put_ecnlen none = ok 0
put_ecnlen (some e) = do
  n1 ← put_uvarintlen e.ect0
  n2 ← put_uvarintlen e.ect1
  n3 ← put_uvarintlen e.ce
  ok (n1 + n2 + n3)

unfoldable pub put_ecn : Option Ecn → Outcome (List ℕ)
put_ecn none = ok []
put_ecn (some e) = do
  b1 ← put_uvarint e.ect0
  b2 ← put_uvarint e.ect1
  b3 ← put_uvarint e.ce
  ok (b1 ++ (b2 ++ b3))

-- `fr->type`
unfoldable pub ack_type : Option Ecn → ℕ
ack_type none = FrameType.ack
ack_type (some e) = FrameType.ack_ecn

unfoldable pub encode_ack_frame : ℕ → Ack → Outcome (List ℕ)
unfolding write ack_type
encode_ack_frame outlen fr = do
  n1 ← put_uvarintlen fr.largest_ack
  n2 ← put_uvarintlen fr.ack_delay
  n3 ← put_uvarintlen (length fr.ranges)
  n4 ← put_uvarintlen fr.first_ack_range
  n5 ← put_rangeslen fr.ranges
  n6 ← put_ecnlen fr.ecn
  let len = 1 + n1 + n2 + n3 + n4 + n5 + n6
  guard (leb len outlen) nobuf
  b1 ← put_uvarint fr.largest_ack
  b2 ← put_uvarint fr.ack_delay
  b3 ← put_uvarint (length fr.ranges)
  b4 ← put_uvarint fr.first_ack_range
  b5 ← put_ranges fr.ranges
  b6 ← put_ecn fr.ecn
  write len (ack_type fr.ecn ∷ (b1 ++ (b2 ++ (b3 ++ (b4 ++ (b5 ++ b6))))))
