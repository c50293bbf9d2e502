-- ===== src/Frame.antt =====
-- The frames of lib/ngtcp2_pkt.h. A union of structs is a data type with a constructor for each
-- struct; a struct whose `type` never varies has no field for it. A buffer is the list of its bytes,
-- an array of `ngtcp2_vec` the list of the buffers that it points to.
pub mod FrameType
pub mod Cursor
pub mod Decode
pub mod Encode
pub mod Layout
pub mod Sound
pub mod Wire
pub mod Sendable
pub mod Size
pub mod RoundTrip
pub mod Examples
use zngtcp.Base.{ℕ, List, Option, Bool}

-- `ngtcp2_stream`, of STREAM and CRYPTO frames. `txbuf` is present if `txbuf_present` is set.
pub record Stream : Type 0 where
  pub flags : ℕ
  pub fin : Bool
  pub stream_id : ℕ
  pub offset : ℕ
  pub payload : List (List ℕ)
  pub txbuf : Option (List ℕ)

pub record AckRange : Type 0 where
  pub gap : ℕ
  pub len : ℕ

pub record Ecn : Type 0 where
  pub ect0 : ℕ
  pub ect1 : ℕ
  pub ce : ℕ

-- `type` is NGTCP2_FRAME_ACK_ECN where `ecn` is present, and NGTCP2_FRAME_ACK where it is not.
pub record Ack : Type 0 where
  pub largest_ack : ℕ
  pub ack_delay : ℕ
  pub ack_delay_unscaled : ℕ
  pub ecn : Option Ecn
  pub first_ack_range : ℕ
  pub ranges : List AckRange

pub record ConnectionClose : Type 0 where
  pub type : ℕ
  pub error_code : ℕ
  pub frame_type : ℕ
  pub reason : List ℕ

pub record NewConnectionId : Type 0 where
  pub seq : ℕ
  pub retire_prior_to : ℕ
  pub cid : List ℕ
  pub token : List ℕ

-- `dgram_id` and `txbuf` of the struct belong to the sender's queue, and neither is encoded.
pub record Datagram : Type 0 where
  pub type : ℕ
  pub payload : List (List ℕ)

pub data Frame : Type 0 where
  padding : (len : ℕ) → Frame
  ping : Frame
  ack : Ack → Frame
  reset_stream : (stream_id app_error_code final_size : ℕ) → Frame
  stop_sending : (stream_id app_error_code : ℕ) → Frame
  crypto : Stream → Frame
  new_token : (token : List ℕ) → Frame
  stream : Stream → Frame
  max_data : (max_data : ℕ) → Frame
  max_stream_data : (stream_id max_stream_data : ℕ) → Frame
  max_streams : (type max_streams : ℕ) → Frame
  data_blocked : (offset : ℕ) → Frame
  stream_data_blocked : (stream_id offset : ℕ) → Frame
  streams_blocked : (type max_streams : ℕ) → Frame
  new_connection_id : NewConnectionId → Frame
  retire_connection_id : (seq : ℕ) → Frame
  path_challenge : (payload : List ℕ) → Frame
  path_response : (payload : List ℕ) → Frame
  connection_close : ConnectionClose → Frame
  handshake_done : Frame
  datagram : Datagram → Frame

-- NGTCP2_MAX_ACK_RANGES, NGTCP2_MIN_CIDLEN, NGTCP2_MAX_CIDLEN, NGTCP2_STATELESS_RESET_TOKENLEN
abbrev pub max_ack_ranges : ℕ
max_ack_ranges = 32

abbrev pub min_cidlen : ℕ
min_cidlen = 1

abbrev pub max_cidlen : ℕ
max_cidlen = 20

abbrev pub tokenlen : ℕ
tokenlen = 16
