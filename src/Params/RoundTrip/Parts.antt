-- ===== src/Params/RoundTrip/Parts.antt =====
-- The parameters of lib/ngtcp2_transport_params.c as a list of IDs and values.
use zngtcp.Base.{
  ℕ, ◌/◌, ◌<◌, ◌≡◌, refl, List, [], ◌∷◌, ◌++◌, Bool, true, false, not, ◌==◌, length, All,
}
use zngtcp.Conv.{IsByte, varint_limit}
use zngtcp.Conv.Write.{encoding, encoding-IsByte, All-append}
use zngtcp.Params.{
  milliseconds, default_max_recv_udp_payload_size, default_ack_delay_exponent,
  default_max_ack_delay, TransportParams,
}
use zngtcp.Params.Encode.{preferred_addr_bytes, version_info_bytes, limit_differs}

-- A parameter: if it is sent, its ID and its value
abbrev pub Part : Type 0
Part = Bool × ℕ × List ℕ

unfoldable pub tlv : ℕ → List ℕ → List ℕ
tlv id v = encoding id ++ (encoding (length v) ++ v)

unfoldable pub wire : List Part → List ℕ
wire [] = []
wire ((true, id, v) ∷ ts) = tlv id v ++ wire ts
wire ((false, id, v) ∷ ts) = wire ts

pub record IsPart (id : ℕ) (v : List ℕ) : Type 0 where
  pub id_max : id < varint_limit
  pub size : length v < varint_limit
  pub bytes : All IsByte v

abbrev pub AreParts : List Part → Type 0
AreParts [] = Unit
AreParts ((b, id, v) ∷ ts) = (b ≡ true → IsPart id v) × AreParts ts

pub wire-IsByte : (ts : List Part) → AreParts ts → All IsByte (wire ts)
unfolding wire tlv
wire-IsByte [] h = tt
wire-IsByte ((true, id, v) ∷ ts) h =
    let part = h.0 refl in
    All-append (encoding id ++ (encoding (length v) ++ v)) (wire ts)
      (All-append (encoding id) (encoding (length v) ++ v) (encoding-IsByte id part.id_max)
        (All-append (encoding (length v)) v (encoding-IsByte (length v) part.size) part.bytes))
      (wire-IsByte ts h.1)
wire-IsByte ((false, id, v) ∷ ts) h = wire-IsByte ts h.1

abbrev pub parts : TransportParams → List Part
parts s =
    (s.original_dcid_present, 0x00, s.original_dcid)
    ∷ (s.stateless_reset_token_present, 0x02, s.stateless_reset_token)
    ∷ (s.preferred_addr_present, 0x0D, preferred_addr_bytes s.preferred_addr)
    ∷ (s.retry_scid_present, 0x10, s.retry_scid)
    ∷ (s.initial_scid_present, 0x0F, s.initial_scid)
    ∷ (
      not (s.initial_max_stream_data_bidi_local == 0),
      0x05,
      encoding s.initial_max_stream_data_bidi_local,
    )
    ∷ (
      not (s.initial_max_stream_data_bidi_remote == 0),
      0x06,
      encoding s.initial_max_stream_data_bidi_remote,
    )
    ∷ (not (s.initial_max_stream_data_uni == 0), 0x07, encoding s.initial_max_stream_data_uni)
    ∷ (not (s.initial_max_data == 0), 0x04, encoding s.initial_max_data)
    ∷ (not (s.initial_max_streams_bidi == 0), 0x08, encoding s.initial_max_streams_bidi)
    ∷ (not (s.initial_max_streams_uni == 0), 0x09, encoding s.initial_max_streams_uni)
    ∷ (
      not (s.max_udp_payload_size == default_max_recv_udp_payload_size),
      0x03,
      encoding s.max_udp_payload_size,
    )
    ∷ (
      not (s.ack_delay_exponent == default_ack_delay_exponent),
      0x0A,
      encoding s.ack_delay_exponent,
    )
    ∷ (s.disable_active_migration, 0x0C, [])
    ∷ (
      not (s.max_ack_delay == default_max_ack_delay),
      0x0B,
      encoding (s.max_ack_delay / milliseconds),
    )
    ∷ (not (s.max_idle_timeout == 0), 0x01, encoding (s.max_idle_timeout / milliseconds))
    ∷ (limit_differs s.active_connection_id_limit, 0x0E, encoding s.active_connection_id_limit)
    ∷ (not (s.max_datagram_frame_size == 0), 0x20, encoding s.max_datagram_frame_size)
    ∷ (s.grease_quic_bit, 0x2AB2, [])
    ∷ (s.version_info_present, 0x11, version_info_bytes s.version_info)
    ∷ []
