-- ===== src/Frame/FrameType.antt =====
-- The NGTCP2_FRAME_* codes of lib/ngtcp2_pkt.h.
use zngtcp.Base.{ℕ}

abbrev pub padding : ℕ
padding = 0x00

abbrev pub ping : ℕ
ping = 0x01

abbrev pub ack : ℕ
ack = 0x02

abbrev pub ack_ecn : ℕ
ack_ecn = 0x03

abbrev pub reset_stream : ℕ
reset_stream = 0x04

abbrev pub stop_sending : ℕ
stop_sending = 0x05

abbrev pub crypto : ℕ
crypto = 0x06

abbrev pub new_token : ℕ
new_token = 0x07

abbrev pub stream : ℕ
stream = 0x08

abbrev pub max_data : ℕ
max_data = 0x10

abbrev pub max_stream_data : ℕ
max_stream_data = 0x11

abbrev pub max_streams_bidi : ℕ
max_streams_bidi = 0x12

abbrev pub max_streams_uni : ℕ
max_streams_uni = 0x13

abbrev pub data_blocked : ℕ
data_blocked = 0x14

abbrev pub stream_data_blocked : ℕ
stream_data_blocked = 0x15

abbrev pub streams_blocked_bidi : ℕ
streams_blocked_bidi = 0x16

abbrev pub streams_blocked_uni : ℕ
streams_blocked_uni = 0x17

abbrev pub new_connection_id : ℕ
new_connection_id = 0x18

abbrev pub retire_connection_id : ℕ
retire_connection_id = 0x19

abbrev pub path_challenge : ℕ
path_challenge = 0x1a

abbrev pub path_response : ℕ
path_response = 0x1b

abbrev pub connection_close : ℕ
connection_close = 0x1c

abbrev pub connection_close_app : ℕ
connection_close_app = 0x1d

abbrev pub handshake_done : ℕ
handshake_done = 0x1e

abbrev pub datagram : ℕ
datagram = 0x30

abbrev pub datagram_len : ℕ
datagram_len = 0x31
