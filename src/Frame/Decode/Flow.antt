-- ===== src/Frame/Decode/Flow.antt =====
-- The decoders of the flow control frames in lib/ngtcp2_pkt.c.
use zngtcp.Base.{ℕ, List, Outcome, ◌>>=◌, ◌>>◌, length}
use zngtcp.Conv.{peek, get_uvarint}
use zngtcp.Frame.{Frame}
use zngtcp.Frame.Cursor.{advance, require, measure, skip, finish}

unfoldable pub decode_max_data_frame : List ℕ → Outcome (Frame × ℕ)
unfolding advance require measure finish
decode_max_data_frame payload = do
  require (length payload) 2
  p ← advance 1 payload
  (_, len) ← measure (length payload) 2 p
  (max_data, end) ← get_uvarint p
  finish payload end len (Frame.max_data max_data)

unfoldable pub decode_max_stream_data_frame : List ℕ → Outcome (Frame × ℕ)
unfolding advance require measure skip finish
decode_max_stream_data_frame payload = do
  require (length payload) 3
  start ← advance 1 payload
  (len1, p1) ← skip (length payload) 3 start
  (_, len) ← measure (length payload) len1 p1
  (stream_id, q1) ← get_uvarint start
  (max_stream_data, q2) ← get_uvarint q1
  finish payload q2 len (Frame.max_stream_data stream_id max_stream_data)

unfoldable pub decode_max_streams_frame : List ℕ → Outcome (Frame × ℕ)
unfolding advance require measure finish peek
decode_max_streams_frame payload = do
  require (length payload) 2
  p ← advance 1 payload
  (_, len) ← measure (length payload) 2 p
  type ← peek payload
  (max_streams, end) ← get_uvarint p
  finish payload end len (Frame.max_streams type max_streams)

unfoldable pub decode_data_blocked_frame : List ℕ → Outcome (Frame × ℕ)
unfolding advance require measure finish
decode_data_blocked_frame payload = do
  require (length payload) 2
  p ← advance 1 payload
  (_, len) ← measure (length payload) 2 p
  (offset, end) ← get_uvarint p
  finish payload end len (Frame.data_blocked offset)

unfoldable pub decode_stream_data_blocked_frame : List ℕ → Outcome (Frame × ℕ)
unfolding advance require measure skip finish
decode_stream_data_blocked_frame payload = do
  require (length payload) 3
  start ← advance 1 payload
  (len1, p1) ← skip (length payload) 3 start
  (_, len) ← measure (length payload) len1 p1
  (stream_id, q1) ← get_uvarint start
  (offset, q2) ← get_uvarint q1
  finish payload q2 len (Frame.stream_data_blocked stream_id offset)

unfoldable pub decode_streams_blocked_frame : List ℕ → Outcome (Frame × ℕ)
unfolding advance require measure finish peek
decode_streams_blocked_frame payload = do
  require (length payload) 2
  p ← advance 1 payload
  (_, len) ← measure (length payload) 2 p
  type ← peek payload
  (max_streams, end) ← get_uvarint p
  finish payload end len (Frame.streams_blocked type max_streams)
