-- ===== src/Frame/Encode.antt =====
-- `ngtcp2_pkt_encode_frame` and the frame encoders of lib/ngtcp2_pkt.c. The result is the list of the
-- bytes that are written at `out`.
pub mod Data
pub mod Acks
use Data.{encode_stream_frame, encode_crypto_frame, encode_datagram_frame}
use Acks.{encode_ack_frame}
use zngtcp.Base.{
  ℕ, ◌+◌, ◌%◌, List, [], ◌∷◌, ◌++◌, Outcome, ok, err, ◌>>=◌, ◌>>◌, guard, assert, nobuf, leb, ltb,
  ◌==◌, length, take, replicate, if◌then◌else◌,
}
use zngtcp.Conv.{put_uvarint, put_uvarintlen}
use zngtcp.Frame.{Frame, ConnectionClose, NewConnectionId, tokenlen}
use zngtcp.Frame.FrameType
use zngtcp.Frame.Cursor.{bytes_at, write}
use zngtcp.Frame.{
  padding, ping, ack, reset_stream, stop_sending, crypto, new_token, stream, max_data,
  max_stream_data, max_streams, data_blocked, stream_data_blocked, streams_blocked,
  new_connection_id, retire_connection_id, path_challenge, path_response, connection_close,
  handshake_done, datagram,
}

unfoldable pub encode_padding_frame : ℕ → ℕ → Outcome (List ℕ)
encode_padding_frame outlen len = do guard (leb len outlen) nobuf; ok (replicate len 0)

unfoldable pub encode_ping_frame : ℕ → Outcome (List ℕ)
encode_ping_frame outlen = do guard (leb 1 outlen) nobuf; ok (FrameType.ping ∷ [])

unfoldable pub encode_handshake_done_frame : ℕ → Outcome (List ℕ)
encode_handshake_done_frame outlen = do
  guard (leb 1 outlen) nobuf
  ok (FrameType.handshake_done ∷ [])

unfoldable pub encode_reset_stream_frame : ℕ → ℕ → ℕ → ℕ → Outcome (List ℕ)
unfolding write
encode_reset_stream_frame outlen stream_id app_error_code final_size = do
  n1 ← put_uvarintlen stream_id
  n2 ← put_uvarintlen app_error_code
  n3 ← put_uvarintlen final_size
  let len = 1 + n1 + n2 + n3
  guard (leb len outlen) nobuf
  b1 ← put_uvarint stream_id
  b2 ← put_uvarint app_error_code
  b3 ← put_uvarint final_size
  write len (FrameType.reset_stream ∷ (b1 ++ b2 ++ b3))

unfoldable pub encode_stop_sending_frame : ℕ → ℕ → ℕ → Outcome (List ℕ)
unfolding write
encode_stop_sending_frame outlen stream_id app_error_code = do
  n1 ← put_uvarintlen stream_id
  n2 ← put_uvarintlen app_error_code
  let len = 1 + n1 + n2
  guard (leb len outlen) nobuf
  b1 ← put_uvarint stream_id
  b2 ← put_uvarint app_error_code
  write len (FrameType.stop_sending ∷ (b1 ++ b2))

unfoldable pub encode_max_data_frame : ℕ → ℕ → Outcome (List ℕ)
unfolding write
encode_max_data_frame outlen limit = do
  n1 ← put_uvarintlen limit
  let len = 1 + n1
  guard (leb len outlen) nobuf
  b1 ← put_uvarint limit
  write len (FrameType.max_data ∷ (b1))

unfoldable pub encode_max_stream_data_frame : ℕ → ℕ → ℕ → Outcome (List ℕ)
unfolding write
encode_max_stream_data_frame outlen stream_id limit = do
  n1 ← put_uvarintlen stream_id
  n2 ← put_uvarintlen limit
  let len = 1 + n1 + n2
  guard (leb len outlen) nobuf
  b1 ← put_uvarint stream_id
  b2 ← put_uvarint limit
  write len (FrameType.max_stream_data ∷ (b1 ++ b2))

unfoldable pub encode_max_streams_frame : ℕ → ℕ → ℕ → Outcome (List ℕ)
unfolding write
encode_max_streams_frame outlen type limit = do
  n1 ← put_uvarintlen limit
  let len = 1 + n1
  guard (leb len outlen) nobuf
  b1 ← put_uvarint limit
  write len ((type % 256) ∷ (b1))

unfoldable pub encode_data_blocked_frame : ℕ → ℕ → Outcome (List ℕ)
unfolding write
encode_data_blocked_frame outlen offset = do
  n1 ← put_uvarintlen offset
  let len = 1 + n1
  guard (leb len outlen) nobuf
  b1 ← put_uvarint offset
  write len (FrameType.data_blocked ∷ (b1))

unfoldable pub encode_stream_data_blocked_frame : ℕ → ℕ → ℕ → Outcome (List ℕ)
unfolding write
encode_stream_data_blocked_frame outlen stream_id offset = do
  n1 ← put_uvarintlen stream_id
  n2 ← put_uvarintlen offset
  let len = 1 + n1 + n2
  guard (leb len outlen) nobuf
  b1 ← put_uvarint stream_id
  b2 ← put_uvarint offset
  write len (FrameType.stream_data_blocked ∷ (b1 ++ b2))

unfoldable pub encode_streams_blocked_frame : ℕ → ℕ → ℕ → Outcome (List ℕ)
unfolding write
encode_streams_blocked_frame outlen type limit = do
  n1 ← put_uvarintlen limit
  let len = 1 + n1
  guard (leb len outlen) nobuf
  b1 ← put_uvarint limit
  write len ((type % 256) ∷ (b1))

unfoldable pub encode_retire_connection_id_frame : ℕ → ℕ → Outcome (List ℕ)
unfolding write
encode_retire_connection_id_frame outlen seq = do
  n1 ← put_uvarintlen seq
  let len = 1 + n1
  guard (leb len outlen) nobuf
  b1 ← put_uvarint seq
  write len (FrameType.retire_connection_id ∷ (b1))

unfoldable pub encode_path_challenge_frame : ℕ → List ℕ → Outcome (List ℕ)
unfolding write bytes_at
encode_path_challenge_frame outlen challenge = do
  guard (leb 9 outlen) nobuf
  bytes ← bytes_at 8 challenge
  write 9 (FrameType.path_challenge ∷ bytes)

unfoldable pub encode_path_response_frame : ℕ → List ℕ → Outcome (List ℕ)
unfolding write bytes_at
encode_path_response_frame outlen challenge = do
  guard (leb 9 outlen) nobuf
  bytes ← bytes_at 8 challenge
  write 9 (FrameType.path_response ∷ bytes)

unfoldable pub encode_new_token_frame : ℕ → List ℕ → Outcome (List ℕ)
unfolding write
encode_new_token_frame outlen token = do
  n ← put_uvarintlen (length token)
  let len = 1 + n + length token
  assert (ltb 0 (length token))
  guard (leb len outlen) nobuf
  b ← put_uvarint (length token)
  write len (FrameType.new_token ∷ (b ++ token))

-- `fr->cid.data` and `fr->token.data` are arrays; the token's has 16 bytes.
unfoldable pub encode_new_connection_id_frame : ℕ → NewConnectionId → Outcome (List ℕ)
unfolding write bytes_at
encode_new_connection_id_frame outlen fr = do
  n1 ← put_uvarintlen fr.seq
  n2 ← put_uvarintlen fr.retire_prior_to
  let len = 1 + n1 + n2 + 1 + length fr.cid + tokenlen
  guard (leb len outlen) nobuf
  b1 ← put_uvarint fr.seq
  b2 ← put_uvarint fr.retire_prior_to
  token ← bytes_at tokenlen fr.token
  write len
      (FrameType.new_connection_id ∷ (b1 ++ (b2 ++ ((length fr.cid % 256) ∷ (fr.cid ++ token)))))

unfoldable pub put_frame_typelen : ConnectionClose → Outcome ℕ
put_frame_typelen fr =
    if fr.type == FrameType.connection_close then put_uvarintlen fr.frame_type else ok 0

unfoldable pub put_frame_type : ConnectionClose → Outcome (List ℕ)
put_frame_type fr =
    if fr.type == FrameType.connection_close then put_uvarint fr.frame_type else ok []

unfoldable pub encode_connection_close_frame : ℕ → ConnectionClose → Outcome (List ℕ)
unfolding write put_frame_typelen put_frame_type
encode_connection_close_frame outlen fr = do
  n1 ← put_uvarintlen fr.error_code
  n2 ← put_frame_typelen fr
  n3 ← put_uvarintlen (length fr.reason)
  let len = 1 + n1 + n2 + n3 + length fr.reason
  guard (leb len outlen) nobuf
  b1 ← put_uvarint fr.error_code
  b2 ← put_frame_type fr
  b3 ← put_uvarint (length fr.reason)
  write len ((fr.type % 256) ∷ (b1 ++ (b2 ++ (b3 ++ fr.reason))))

-- `outlen` is the room at `out`.
unfoldable pub encode : ℕ → Frame → Outcome (List ℕ)
encode outlen (padding len) = encode_padding_frame outlen len
encode outlen ping = encode_ping_frame outlen
encode outlen (ack fr) = encode_ack_frame outlen fr
encode outlen (reset_stream stream_id app_error_code final_size) =
    encode_reset_stream_frame outlen stream_id app_error_code final_size
encode outlen (stop_sending stream_id app_error_code) =
    encode_stop_sending_frame outlen stream_id app_error_code
encode outlen (crypto fr) = encode_crypto_frame outlen fr
encode outlen (new_token token) = encode_new_token_frame outlen token
encode outlen (stream fr) = encode_stream_frame outlen fr
encode outlen (max_data limit) = encode_max_data_frame outlen limit
encode outlen (max_stream_data stream_id limit) =
    encode_max_stream_data_frame outlen stream_id limit
encode outlen (max_streams type limit) = encode_max_streams_frame outlen type limit
encode outlen (data_blocked offset) = encode_data_blocked_frame outlen offset
encode outlen (stream_data_blocked stream_id offset) =
    encode_stream_data_blocked_frame outlen stream_id offset
encode outlen (streams_blocked type limit) = encode_streams_blocked_frame outlen type limit
encode outlen (new_connection_id fr) = encode_new_connection_id_frame outlen fr
encode outlen (retire_connection_id seq) = encode_retire_connection_id_frame outlen seq
encode outlen (path_challenge challenge) = encode_path_challenge_frame outlen challenge
encode outlen (path_response challenge) = encode_path_response_frame outlen challenge
encode outlen (connection_close fr) = encode_connection_close_frame outlen fr
encode outlen handshake_done = encode_handshake_done_frame outlen
encode outlen (datagram fr) = encode_datagram_frame outlen fr
