-- ===== src/Frame/Decode/Control.antt =====
-- The decoders of the frames in lib/ngtcp2_pkt.c that control a connection, its streams and paths.
use zngtcp.Base.{
  ℕ, suc, ◌+◌, ◌-◌, List, [], ◌∷◌, Outcome, ok, ◌>>=◌, ◌>>◌, guard, assert, frame_encoding, length,
  leb, ltb, ◌==◌, not, ◌||◌, if◌then◌else◌,
}
use zngtcp.Conv.{peek, get_uvarint}
use zngtcp.Frame.{Frame, min_cidlen, max_cidlen, tokenlen}
use zngtcp.Frame.FrameType
use zngtcp.Frame.Cursor.{advance, bytes_at, require, measure, skip, finish}

-- `for (; p != ep && *p == NGTCP2_FRAME_PADDING; ++p);`: the bytes that the loop passes
unfoldable pub padding_run : List ℕ → ℕ
padding_run [] = 0
padding_run (b ∷ p) = if b == FrameType.padding then suc (padding_run p) else 0

unfoldable pub decode_padding_frame : List ℕ → Outcome (Frame × ℕ)
unfolding advance padding_run
decode_padding_frame payload = do
  assert (ltb 0 (length payload))
  p ← advance 1 payload
  let len = 1 + padding_run p
  ok (Frame.padding len, len)

unfoldable pub decode_ping_frame : List ℕ → Outcome (Frame × ℕ)
decode_ping_frame payload = do assert (ltb 0 (length payload)); ok (Frame.ping, 1)

unfoldable pub decode_handshake_done_frame : List ℕ → Outcome (Frame × ℕ)
decode_handshake_done_frame payload = do
  assert (ltb 0 (length payload))
  ok (Frame.handshake_done, 1)

unfoldable pub decode_reset_stream_frame : List ℕ → Outcome (Frame × ℕ)
unfolding advance require measure skip finish
decode_reset_stream_frame payload = do
  require (length payload) 4
  start ← advance 1 payload
  (len1, p1) ← skip (length payload) 4 start
  (len2, p2) ← skip (length payload) len1 p1
  (_, len) ← measure (length payload) len2 p2
  (stream_id, q1) ← get_uvarint start
  (app_error_code, q2) ← get_uvarint q1
  (final_size, q3) ← get_uvarint q2
  finish payload q3 len (Frame.reset_stream stream_id app_error_code final_size)

unfoldable pub decode_stop_sending_frame : List ℕ → Outcome (Frame × ℕ)
unfolding advance require measure skip finish
decode_stop_sending_frame payload = do
  require (length payload) 3
  start ← advance 1 payload
  (len1, p1) ← skip (length payload) 3 start
  (_, len) ← measure (length payload) len1 p1
  (stream_id, q1) ← get_uvarint start
  (app_error_code, q2) ← get_uvarint q1
  finish payload q2 len (Frame.stop_sending stream_id app_error_code)

unfoldable pub decode_retire_connection_id_frame : List ℕ → Outcome (Frame × ℕ)
unfolding advance require measure finish
decode_retire_connection_id_frame payload = do
  require (length payload) 2
  p ← advance 1 payload
  (_, len) ← measure (length payload) 2 p
  (seq, end) ← get_uvarint p
  finish payload end len (Frame.retire_connection_id seq)

unfoldable pub decode_path_challenge_frame : List ℕ → Outcome (Frame × ℕ)
unfolding advance bytes_at require finish
decode_path_challenge_frame payload = do
  require (length payload) 9
  p ← advance 1 payload
  challenge ← bytes_at 8 p
  end ← advance 8 p
  finish payload end 9 (Frame.path_challenge challenge)

unfoldable pub decode_path_response_frame : List ℕ → Outcome (Frame × ℕ)
unfolding advance bytes_at require finish
decode_path_response_frame payload = do
  require (length payload) 9
  p ← advance 1 payload
  challenge ← bytes_at 8 p
  end ← advance 8 p
  finish payload end 9 (Frame.path_response challenge)

unfoldable pub decode_new_token_frame : List ℕ → Outcome (Frame × ℕ)
unfolding advance bytes_at require measure finish
decode_new_token_frame payload = do
  require (length payload) 2
  p ← advance 1 payload
  (_, len) ← measure (length payload) 2 p
  (vi, q) ← get_uvarint p
  guard (leb vi (length payload - len)) frame_encoding
  token ← bytes_at vi q
  end ← advance vi q
  finish payload end (len + vi) (Frame.new_token token)

unfoldable pub decode_new_connection_id_frame : List ℕ → Outcome (Frame × ℕ)
unfolding advance bytes_at require skip finish peek
decode_new_connection_id_frame payload = do
  require (length payload) 20
  start ← advance 1 payload
  (len1, p1) ← skip (length payload) 20 start
  (len2, p2) ← skip (length payload) len1 p1
  cil ← peek p2
  guard (not (ltb cil min_cidlen || ltb max_cidlen cil)) frame_encoding
  let len = len2 + cil
  require (length payload) len
  (seq, q1) ← get_uvarint start
  (retire_prior_to, q2) ← get_uvarint q1
  q3 ← advance 1 q2
  cid ← bytes_at cil q3
  q4 ← advance cil q3
  token ← bytes_at tokenlen q4
  end ← advance tokenlen q4
  finish payload end len (
      Frame.new_connection_id
        (record { seq = seq; retire_prior_to = retire_prior_to; cid = cid; token = token }))

-- Length checks of the frame type field, which only a CONNECTION_CLOSE of the transport has.
unfoldable pub skip_frame_type : ℕ → ℕ → ℕ → List ℕ → Outcome (ℕ × List ℕ)
unfolding skip
skip_frame_type type payloadlen len p =
    if type == FrameType.connection_close then skip payloadlen (len + 1) p else ok (len, p)

unfoldable pub get_frame_type : ℕ → List ℕ → Outcome (ℕ × List ℕ)
get_frame_type type p = if type == FrameType.connection_close then get_uvarint p else ok (0, p)

unfoldable pub decode_connection_close_frame : List ℕ → Outcome (Frame × ℕ)
unfolding advance bytes_at require skip measure finish peek skip_frame_type get_frame_type
decode_connection_close_frame payload = do
  require (length payload) 3
  type ← peek payload
  start ← advance 1 payload
  (len1, p1) ← skip (length payload) 3 start
  (len2, p2) ← skip_frame_type type (length payload) len1 p1
  (nreasonlen, len3) ← measure (length payload) len2 p2
  (vi, _) ← get_uvarint p2
  guard (leb vi (length payload - len3)) frame_encoding
  let len = len3 + vi
  (error_code, q1) ← get_uvarint start
  (frame_type, q2) ← get_frame_type type q1
  q3 ← advance nreasonlen q2
  reason ← bytes_at vi q3
  end ← advance vi q3
  finish payload end len (
      Frame.connection_close
        (record { type = type; error_code = error_code; frame_type = frame_type; reason = reason }))
