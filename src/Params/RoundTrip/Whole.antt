-- ===== src/Params/RoundTrip/Whole.antt =====
-- What `ngtcp2_transport_params_decode_versioned` makes of what `ngtcp2_transport_params_encode_versioned`
-- sends.
use zngtcp.Base.{
  ℕ, ◌*◌, ◌/◌, ◌≡◌, refl, ap, ◌∙◌, List, [], Bool, true, false, not, ◌==◌, none, some, ok, err,
  nobuf, leb, length, All, arith, if◌then◌else◌,
}
use zngtcp.Conv.{IsByte}
use zngtcp.Params.{
  milliseconds, default_max_recv_udp_payload_size, default_ack_delay_exponent,
  default_max_ack_delay, default_active_connection_id_limit, TransportParams, defaults,
}
use zngtcp.Params.Decode.Whole.{decode}
use zngtcp.Params.Encode.{encode, limit_differs}
use zngtcp.Params.RoundTrip.{IsEncodable, received}
use zngtcp.Params.RoundTrip.Parts.{wire, parts, wire-IsByte}
use zngtcp.Params.RoundTrip.Encoded.{parts-AreParts, encoded_size, encoded_bytes}
use zngtcp.Params.RoundTrip.Steps.{Leads, Leads-trans, Leads-end}
use zngtcp.Params.RoundTrip.Numbers.{
  bidi_local_Leads, bidi_remote_Leads, uni_Leads, max_data_Leads, streams_bidi_Leads,
  streams_uni_Leads, payload_Leads, exponent_Leads, delay_Leads, idle_Leads, limit_Leads,
  datagram_Leads,
}
use zngtcp.Params.RoundTrip.Compounds.{
  original_Leads, retry_Leads, initial_Leads, migration_Leads, grease_Leads, token_Leads,
  preferred_Leads, versions_Leads,
}

unless_default : (d n : ℕ) → (if not (n == d) then n else d) ≡ n
unless_default d n = ground arith

rounded :
    (d n : ℕ)
    → d / milliseconds * milliseconds ≡ d
    → (if not (n == d) then n / milliseconds * milliseconds else d)
      ≡ n / milliseconds * milliseconds
rounded d n e = ground (arith, e)

limited : (n : ℕ) → (if limit_differs n then n else 2) ≡ (if n == 0 then 2 else n)
unfolding limit_differs
limited n = ground arith

set_flag : (b : Bool) → (if b then true else false) ≡ b
set_flag true = refl
set_flag false = refl

-- The parameters as the rounds leave them
abbrev decoded : TransportParams → TransportParams
decoded s = record (received s) {
  initial_max_stream_data_bidi_local =
      if not (s.initial_max_stream_data_bidi_local == 0)
      then s.initial_max_stream_data_bidi_local
      else 0;
  initial_max_stream_data_bidi_remote =
      if not (s.initial_max_stream_data_bidi_remote == 0)
      then s.initial_max_stream_data_bidi_remote
      else 0;
  initial_max_stream_data_uni =
      if not (s.initial_max_stream_data_uni == 0) then s.initial_max_stream_data_uni else 0;
  initial_max_data = if not (s.initial_max_data == 0) then s.initial_max_data else 0;
  initial_max_streams_bidi =
      if not (s.initial_max_streams_bidi == 0) then s.initial_max_streams_bidi else 0;
  initial_max_streams_uni =
      if not (s.initial_max_streams_uni == 0) then s.initial_max_streams_uni else 0;
  max_datagram_frame_size =
      if not (s.max_datagram_frame_size == 0) then s.max_datagram_frame_size else 0;
  max_udp_payload_size =
      if not (s.max_udp_payload_size == default_max_recv_udp_payload_size)
      then s.max_udp_payload_size
      else default_max_recv_udp_payload_size;
  ack_delay_exponent =
      if not (s.ack_delay_exponent == default_ack_delay_exponent)
      then s.ack_delay_exponent
      else default_ack_delay_exponent;
  max_idle_timeout =
      if not (s.max_idle_timeout == 0) then s.max_idle_timeout / milliseconds * milliseconds else 0;
  max_ack_delay =
      if not (s.max_ack_delay == default_max_ack_delay)
      then s.max_ack_delay / milliseconds * milliseconds
      else default_max_ack_delay;
  active_connection_id_limit =
      if limit_differs s.active_connection_id_limit
      then s.active_connection_id_limit
      else default_active_connection_id_limit;
  stateless_reset_token_present = if s.stateless_reset_token_present then true else false;
  disable_active_migration = if s.disable_active_migration then true else false;
  original_dcid_present = if s.original_dcid_present then true else false;
  initial_scid_present = if s.initial_scid_present then true else false;
  retry_scid_present = if s.retry_scid_present then true else false;
  preferred_addr_present = if s.preferred_addr_present then true else false;
  grease_quic_bit = if s.grease_quic_bit then true else false;
  version_info_present = if s.version_info_present then true else false;
}

infixr 3 ◌⨾◌
abbrev ◌⨾◌ :
    {s s' s'' : TransportParams} {p p' p'' : List ℕ}
    → Leads s p s' p'
    → Leads s' p' s'' p''
    → Leads s p s'' p''
a ⨾ b = Leads-trans a b

-- The rounds of the loop on all that is sent, in its order.
rounds : (s : TransportParams) → IsEncodable s → Leads defaults (wire (parts s)) (decoded s) []
unfolding wire
rounds s v =
    let h = parts-AreParts s v in
    original_Leads defaults _ s.original_dcid_present s.original_dcid h v.original
    ⨾ token_Leads _ _ s.stateless_reset_token_present s.stateless_reset_token h.1 v.token
    ⨾ preferred_Leads _ _ s.preferred_addr_present s.preferred_addr refl h.1.1 v.preferred
    ⨾ retry_Leads _ _ s.retry_scid_present s.retry_scid h.1.1.1 v.retry
    ⨾ initial_Leads _ _ s.initial_scid_present s.initial_scid h.1.1.1.1 v.initial
    ⨾ bidi_local_Leads _ _ s.initial_max_stream_data_bidi_local h.1.1.1.1.1 v.bidi_local
    ⨾ bidi_remote_Leads _ _ s.initial_max_stream_data_bidi_remote h.1.1.1.1.1.1 v.bidi_remote
    ⨾ uni_Leads _ _ s.initial_max_stream_data_uni h.1.1.1.1.1.1.1 v.uni
    ⨾ max_data_Leads _ _ s.initial_max_data h.1.1.1.1.1.1.1.1 v.max_data
    ⨾ streams_bidi_Leads _ _ s.initial_max_streams_bidi h.1.1.1.1.1.1.1.1.1 v.streams_bidi
    ⨾ streams_uni_Leads _ _ s.initial_max_streams_uni h.1.1.1.1.1.1.1.1.1.1 v.streams_uni
    ⨾ payload_Leads _ _ s.max_udp_payload_size h.1.1.1.1.1.1.1.1.1.1.1 v.payload
    ⨾ exponent_Leads _ _ s.ack_delay_exponent h.1.1.1.1.1.1.1.1.1.1.1.1 v.exponent
    ⨾ migration_Leads _ _ s.disable_active_migration h.1.1.1.1.1.1.1.1.1.1.1.1.1
    ⨾ delay_Leads _ _ s.max_ack_delay h.1.1.1.1.1.1.1.1.1.1.1.1.1.1 v.delay
    ⨾ idle_Leads _ _ s.max_idle_timeout h.1.1.1.1.1.1.1.1.1.1.1.1.1.1.1 v.idle
    ⨾ limit_Leads _ _ s.active_connection_id_limit h.1.1.1.1.1.1.1.1.1.1.1.1.1.1.1.1 v.limit
    ⨾ datagram_Leads _ _ s.max_datagram_frame_size h.1.1.1.1.1.1.1.1.1.1.1.1.1.1.1.1.1 v.datagram
    ⨾ grease_Leads _ _ s.grease_quic_bit h.1.1.1.1.1.1.1.1.1.1.1.1.1.1.1.1.1.1
    ⨾ versions_Leads _ _ s.version_info_present s.version_info refl
        h.1.1.1.1.1.1.1.1.1.1.1.1.1.1.1.1.1.1.1 v.versions

decoded-received : (s : TransportParams) → decoded s ≡ received s
decoded-received s = λ i. record (received s) {
  initial_max_stream_data_bidi_local = unless_default 0 s.initial_max_stream_data_bidi_local i;
  initial_max_stream_data_bidi_remote = unless_default 0 s.initial_max_stream_data_bidi_remote i;
  initial_max_stream_data_uni = unless_default 0 s.initial_max_stream_data_uni i;
  initial_max_data = unless_default 0 s.initial_max_data i;
  initial_max_streams_bidi = unless_default 0 s.initial_max_streams_bidi i;
  initial_max_streams_uni = unless_default 0 s.initial_max_streams_uni i;
  max_datagram_frame_size = unless_default 0 s.max_datagram_frame_size i;
  max_udp_payload_size = unless_default default_max_recv_udp_payload_size s.max_udp_payload_size i;
  ack_delay_exponent = unless_default default_ack_delay_exponent s.ack_delay_exponent i;
  max_idle_timeout = rounded 0 s.max_idle_timeout (omega arith) i;
  max_ack_delay = rounded default_max_ack_delay s.max_ack_delay (omega arith) i;
  active_connection_id_limit = limited s.active_connection_id_limit i;
  stateless_reset_token_present = set_flag s.stateless_reset_token_present i;
  disable_active_migration = set_flag s.disable_active_migration i;
  original_dcid_present = set_flag s.original_dcid_present i;
  initial_scid_present = set_flag s.initial_scid_present i;
  retry_scid_present = set_flag s.retry_scid_present i;
  preferred_addr_present = set_flag s.preferred_addr_present i;
  grease_quic_bit = set_flag s.grease_quic_bit i;
  version_info_present = set_flag s.version_info_present i;
}

-- An endpoint that sends parameters is told their length in a first call, gets that many bytes
-- where there is room for them and NGTCP2_ERR_NOBUF where there is not, and its peer accepts those
-- bytes and obtains the same parameters: with the times in whole milliseconds, a limit of 0
-- connection IDs as the default, and the defaults for what is not present. The parameters are ones
-- that may be sent (`IsEncodable`): numbers below 2 ^ 62, at most 2 ^ 60 streams of each kind, an
-- ack_delay_exponent of at most 20, a max_ack_delay below 2 ^ 14 milliseconds, a max_idle_timeout
-- of 64 bits, and, where they are present, connection IDs of at most 20 bytes, a reset token of 16,
-- a preferred address whose connection ID is not empty and whose addresses with their ports are not
-- all zeros, a chosen version of 32 bits that is not 0, and available versions in whole words that
-- are not 0.
pub decode-encode-received :
    (s : TransportParams)
    → IsEncodable s
    → (bytes : List ℕ) × (encode none s ≡ ok (length bytes, []))
      × ((destlen : ℕ)
          → encode (some destlen) s
            ≡ (if leb (length bytes) destlen then ok (length bytes, bytes) else err nobuf))
      × All IsByte bytes
      × (decode bytes ≡ ok (received s))
unfolding decode
decode-encode-received s v = (
  wire (parts s),
  encoded_size s v,
  λ destlen. encoded_bytes destlen s v,
  wire-IsByte (parts s) (parts-AreParts s v),
  Leads-end defaults (decoded s) (wire (parts s)) (rounds s v) ∙ ap ok (decoded-received s),
)
