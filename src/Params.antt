-- ===== src/Params.antt =====
-- lib/ngtcp2_transport_params.c: the transport parameters of a connection. An `ngtcp2_cid` is the
-- list of its bytes, and so are an address, a port in the byte order that it is sent in, and the
-- available versions. `sin_family`, a constant of the address type, is left out.
pub mod Decode
pub mod Encode
pub mod Safe
pub mod RoundTrip
pub mod Idle
pub mod Examples
use zngtcp.Base.{ℕ, ◌*◌, ◌^◌, List, [], Bool, false, replicate}

-- NGTCP2_MILLISECONDS, of a clock that counts nanoseconds
abbrev pub milliseconds : ℕ
milliseconds = 1000000

abbrev pub max_streams : ℕ
max_streams = 2 ^ 60

abbrev pub default_max_recv_udp_payload_size : ℕ
default_max_recv_udp_payload_size = 65527

abbrev pub default_ack_delay_exponent : ℕ
default_ack_delay_exponent = 3

abbrev pub default_max_ack_delay : ℕ
default_max_ack_delay = 25 * milliseconds

abbrev pub default_active_connection_id_limit : ℕ
default_active_connection_id_limit = 2

pub record PreferredAddr : Type 0 where
  pub cid : List ℕ
  pub ipv4_addr : List ℕ
  pub ipv4_port : List ℕ
  pub ipv6_addr : List ℕ
  pub ipv6_port : List ℕ
  pub ipv4_present : Bool
  pub ipv6_present : Bool
  pub reset_token : List ℕ

pub record VersionInfo : Type 0 where
  pub chosen_version : ℕ
  pub available_versions : List ℕ

pub record TransportParams : Type 0 where
  pub preferred_addr : PreferredAddr
  pub original_dcid : List ℕ
  pub initial_scid : List ℕ
  pub retry_scid : List ℕ
  pub initial_max_stream_data_bidi_local : ℕ
  pub initial_max_stream_data_bidi_remote : ℕ
  pub initial_max_stream_data_uni : ℕ
  pub initial_max_data : ℕ
  pub initial_max_streams_bidi : ℕ
  pub initial_max_streams_uni : ℕ
  pub max_idle_timeout : ℕ
  pub max_udp_payload_size : ℕ
  pub active_connection_id_limit : ℕ
  pub ack_delay_exponent : ℕ
  pub max_ack_delay : ℕ
  pub max_datagram_frame_size : ℕ
  pub stateless_reset_token_present : Bool
  pub disable_active_migration : Bool
  pub original_dcid_present : Bool
  pub initial_scid_present : Bool
  pub retry_scid_present : Bool
  pub preferred_addr_present : Bool
  pub stateless_reset_token : List ℕ
  pub grease_quic_bit : Bool
  pub version_info : VersionInfo
  pub version_info_present : Bool

-- `ngtcp2_transport_params_default_versioned`, and what the decoder starts from
abbrev pub defaults : TransportParams
defaults = record {
  preferred_addr = record {
    cid = [];
    ipv4_addr = replicate 4 0;
    ipv4_port = replicate 2 0;
    ipv6_addr = replicate 16 0;
    ipv6_port = replicate 2 0;
    ipv4_present = false;
    ipv6_present = false;
    reset_token = replicate 16 0;
  };
  original_dcid = [];
  initial_scid = [];
  retry_scid = [];
  initial_max_stream_data_bidi_local = 0;
  initial_max_stream_data_bidi_remote = 0;
  initial_max_stream_data_uni = 0;
  initial_max_data = 0;
  initial_max_streams_bidi = 0;
  initial_max_streams_uni = 0;
  max_idle_timeout = 0;
  max_udp_payload_size = default_max_recv_udp_payload_size;
  active_connection_id_limit = default_active_connection_id_limit;
  ack_delay_exponent = default_ack_delay_exponent;
  max_ack_delay = default_max_ack_delay;
  max_datagram_frame_size = 0;
  stateless_reset_token_present = false;
  disable_active_migration = false;
  original_dcid_present = false;
  initial_scid_present = false;
  retry_scid_present = false;
  preferred_addr_present = false;
  stateless_reset_token = replicate 16 0;
  grease_quic_bit = false;
  version_info = record { chosen_version = 0; available_versions = [] };
  version_info_present = false;
}

-- NGTCP2_TRANSPORT_PARAM_*, and any other ID
pub data ParamId : Type 0 where
  original_destination_connection_id max_idle_timeout_id stateless_reset_token_id : ParamId
  max_udp_payload_size_id initial_max_data_id initial_max_stream_data_bidi_local_id : ParamId
  initial_max_stream_data_bidi_remote_id initial_max_stream_data_uni_id : ParamId
  initial_max_streams_bidi_id initial_max_streams_uni_id ack_delay_exponent_id : ParamId
  max_ack_delay_id disable_active_migration_id preferred_address : ParamId
  active_connection_id_limit_id initial_source_connection_id : ParamId
  retry_source_connection_id version_information max_datagram_frame_size_id : ParamId
  grease_quic_bit_id other : ParamId
