-- ===== src/Frame/Decode.antt =====
-- `ngtcp2_frame_decoder_decode` of lib/ngtcp2_pkt.c. `payload` is the rest of the packet from the
-- frame's first byte on, so `payloadlen` is its length. A decoder returns the frame and the number of
-- bytes that it takes.
pub mod Flow
pub mod Control
pub mod Data
pub mod Acks
use Flow.{
  decode_max_data_frame, decode_max_stream_data_frame, decode_max_streams_frame,
  decode_data_blocked_frame, decode_stream_data_blocked_frame, decode_streams_blocked_frame,
}
use Control.{
  decode_padding_frame, decode_ping_frame, decode_handshake_done_frame, decode_reset_stream_frame,
  decode_stop_sending_frame, decode_retire_connection_id_frame, decode_path_challenge_frame,
  decode_path_response_frame, decode_new_token_frame, decode_new_connection_id_frame,
  decode_connection_close_frame,
}
use Data.{decode_stream_frame, decode_crypto_frame, decode_datagram_frame}
use Acks.{decode_ack_frame}
use zngtcp.Base.{
  ℕ, ◌*◌, ◌/◌, List, Outcome, err, ◌>>=◌, ◌>>◌, guard, frame_encoding, length, not, ◌==◌, ◌||◌,
  if◌then◌else◌,
}
use zngtcp.Conv.{peek}
use zngtcp.Frame.{Frame}
use zngtcp.Frame.FrameType

-- The cases of `switch (type)`.
pub data Case : Type 0 where
  padding reset_stream connection_close max_data max_stream_data max_streams ping : Case
  data_blocked stream_data_blocked streams_blocked new_connection_id stop_sending ack : Case
  path_challenge path_response crypto new_token retire_connection_id handshake_done : Case
  datagram stream unknown : Case

unfoldable pub case_of : ℕ → Case
case_of type =
    if type == FrameType.padding
    then Case.padding
    else if type == FrameType.reset_stream
    then Case.reset_stream
    else if type == FrameType.connection_close || type == FrameType.connection_close_app
    then Case.connection_close
    else if type == FrameType.max_data
    then Case.max_data
    else if type == FrameType.max_stream_data
    then Case.max_stream_data
    else if type == FrameType.max_streams_bidi || type == FrameType.max_streams_uni
    then Case.max_streams
    else if type == FrameType.ping
    then Case.ping
    else if type == FrameType.data_blocked
    then Case.data_blocked
    else if type == FrameType.stream_data_blocked
    then Case.stream_data_blocked
    else if type == FrameType.streams_blocked_bidi || type == FrameType.streams_blocked_uni
    then Case.streams_blocked
    else if type == FrameType.new_connection_id
    then Case.new_connection_id
    else if type == FrameType.stop_sending
    then Case.stop_sending
    else if type == FrameType.ack || type == FrameType.ack_ecn
    then Case.ack
    else if type == FrameType.path_challenge
    then Case.path_challenge
    else if type == FrameType.path_response
    then Case.path_response
    else if type == FrameType.crypto
    then Case.crypto
    else if type == FrameType.new_token
    then Case.new_token
    else if type == FrameType.retire_connection_id
    then Case.retire_connection_id
    else if type == FrameType.handshake_done
    then Case.handshake_done
    else if type == FrameType.datagram || type == FrameType.datagram_len
    then Case.datagram
    else if type / 8 * 8 == FrameType.stream
    then Case.stream
    else Case.unknown

unfoldable pub decode_case : Case → List ℕ → Outcome (Frame × ℕ)
decode_case padding payload = decode_padding_frame payload
decode_case reset_stream payload = decode_reset_stream_frame payload
decode_case connection_close payload = decode_connection_close_frame payload
decode_case max_data payload = decode_max_data_frame payload
decode_case max_stream_data payload = decode_max_stream_data_frame payload
decode_case max_streams payload = decode_max_streams_frame payload
decode_case ping payload = decode_ping_frame payload
decode_case data_blocked payload = decode_data_blocked_frame payload
decode_case stream_data_blocked payload = decode_stream_data_blocked_frame payload
decode_case streams_blocked payload = decode_streams_blocked_frame payload
decode_case new_connection_id payload = decode_new_connection_id_frame payload
decode_case stop_sending payload = decode_stop_sending_frame payload
decode_case ack payload = decode_ack_frame payload
decode_case path_challenge payload = decode_path_challenge_frame payload
decode_case path_response payload = decode_path_response_frame payload
decode_case crypto payload = decode_crypto_frame payload
decode_case new_token payload = decode_new_token_frame payload
decode_case retire_connection_id payload = decode_retire_connection_id_frame payload
decode_case handshake_done payload = decode_handshake_done_frame payload
decode_case datagram payload = decode_datagram_frame payload
decode_case stream payload = decode_stream_frame payload
decode_case unknown payload = err frame_encoding

unfoldable pub decode : List ℕ → Outcome (Frame × ℕ)
unfolding case_of decode_case peek
decode payload = do
  guard (not (length payload == 0)) frame_encoding
  type ← peek payload
  decode_case (case_of type) payload
