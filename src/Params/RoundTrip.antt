-- ===== src/Params/RoundTrip.antt =====
-- What `ngtcp2_transport_params_encode_versioned` sends: for each parameter that is there its ID, the
-- length of its value and its value, and what the peer is to make of it.
pub mod Parts
pub mod Written
pub mod Blocks
pub mod Encoded
pub mod Reads
pub mod Compound
pub mod Steps
pub mod Numbers
pub mod Compounds
pub mod Whole
use zngtcp.Base.{
  ℕ, ◌+◌, ◌*◌, ◌/◌, ◌%◌, ◌^◌, ◌≤◌, ◌<◌, ◌≡◌, List, [], ◌∷◌, ◌++◌, Bool, true, false, not, ◌||◌,
  ◌==◌, length, replicate, All, if◌then◌else◌,
}
use zngtcp.Conv.{IsByte, varint_limit}
use zngtcp.Conv.Write.{encoding}
use zngtcp.Params.{
  milliseconds, max_streams, default_max_recv_udp_payload_size, default_ack_delay_exponent,
  default_max_ack_delay, default_active_connection_id_limit, PreferredAddr, VersionInfo,
  TransportParams, defaults,
}
use zngtcp.Params.Decode.{is_set}
use zngtcp.Params.Encode.{preferred_addr_bytes, version_info_bytes, limit_differs}
use zngtcp.Params.Safe.Compound.{AreVersions}

pub record IsCidSent (cid : List ℕ) : Type 0 where
  pub size : length cid ≤ 20
  pub bytes : All IsByte cid

pub record IsTokenSent (token : List ℕ) : Type 0 where
  pub size : length token ≡ 16
  pub bytes : All IsByte token

-- An address of `n` bytes with a port, not both all zero, if it is there
pub record IsAddressSent (n : ℕ) (present : Bool) (addr port : List ℕ) : Type 0 where
  pub addr_size : present ≡ true → length addr ≡ n
  pub addr_bytes : present ≡ true → All IsByte addr
  pub port_size : present ≡ true → length port ≡ 2
  pub port_bytes : present ≡ true → All IsByte port
  pub nonzero : present ≡ true → (is_set port || is_set addr) ≡ true

pub record IsPreferredSent (a : PreferredAddr) : Type 0 where
  pub cid : IsCidSent a.cid
  pub cid_pos : 1 ≤ length a.cid
  pub ipv4 : IsAddressSent 4 a.ipv4_present a.ipv4_addr a.ipv4_port
  pub ipv6 : IsAddressSent 16 a.ipv6_present a.ipv6_addr a.ipv6_port
  pub token : IsTokenSent a.reset_token

-- The available versions fill whole words, none of them 0.
pub record IsVersionSent (v : VersionInfo) : Type 0 where
  pub chosen_pos : 0 < v.chosen_version
  pub chosen_max : v.chosen_version < 2 ^ 32
  pub whole : length v.available_versions % 4 ≡ 0
  pub size : length v.available_versions < 2 ^ 32
  pub bytes : All IsByte v.available_versions
  pub nonzero : AreVersions v.available_versions

-- Parameters that an endpoint may send.
pub record IsEncodable (s : TransportParams) : Type 0 where
  pub original : s.original_dcid_present ≡ true → IsCidSent s.original_dcid
  pub token : s.stateless_reset_token_present ≡ true → IsTokenSent s.stateless_reset_token
  pub preferred : s.preferred_addr_present ≡ true → IsPreferredSent s.preferred_addr
  pub retry : s.retry_scid_present ≡ true → IsCidSent s.retry_scid
  pub initial : s.initial_scid_present ≡ true → IsCidSent s.initial_scid
  pub bidi_local : s.initial_max_stream_data_bidi_local < varint_limit
  pub bidi_remote : s.initial_max_stream_data_bidi_remote < varint_limit
  pub uni : s.initial_max_stream_data_uni < varint_limit
  pub max_data : s.initial_max_data < varint_limit
  pub streams_bidi : s.initial_max_streams_bidi ≤ max_streams
  pub streams_uni : s.initial_max_streams_uni ≤ max_streams
  pub payload : s.max_udp_payload_size < varint_limit
  pub exponent : s.ack_delay_exponent ≤ 20
  pub delay : s.max_ack_delay < 16384 * milliseconds
  pub idle : s.max_idle_timeout < 2 ^ 64
  pub limit : s.active_connection_id_limit < varint_limit
  pub datagram : s.max_datagram_frame_size < varint_limit
  pub versions : s.version_info_present ≡ true → IsVersionSent s.version_info

-- An address that is not there arrives as zeros.
abbrev pub received_addr : PreferredAddr → PreferredAddr
received_addr a = record a {
  ipv4_addr = if a.ipv4_present then a.ipv4_addr else replicate 4 0;
  ipv4_port = if a.ipv4_present then a.ipv4_port else replicate 2 0;
  ipv6_addr = if a.ipv6_present then a.ipv6_addr else replicate 16 0;
  ipv6_port = if a.ipv6_present then a.ipv6_port else replicate 2 0;
}

-- What the peer knows of the parameters `s`: what is not there is at its default, times are in whole
-- milliseconds, and a limit of 0 connection IDs is the default.
abbrev pub received : TransportParams → TransportParams
received s = record s {
  preferred_addr =
      if s.preferred_addr_present then received_addr s.preferred_addr else defaults.preferred_addr;
  original_dcid = if s.original_dcid_present then s.original_dcid else [];
  initial_scid = if s.initial_scid_present then s.initial_scid else [];
  retry_scid = if s.retry_scid_present then s.retry_scid else [];
  max_idle_timeout = s.max_idle_timeout / milliseconds * milliseconds;
  active_connection_id_limit =
      if s.active_connection_id_limit == 0
      then default_active_connection_id_limit
      else s.active_connection_id_limit;
  max_ack_delay = s.max_ack_delay / milliseconds * milliseconds;
  stateless_reset_token =
      if s.stateless_reset_token_present
      then s.stateless_reset_token
      else defaults.stateless_reset_token;
  version_info = if s.version_info_present then s.version_info else defaults.version_info;
}
