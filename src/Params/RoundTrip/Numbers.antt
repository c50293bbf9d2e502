-- ===== src/Params/RoundTrip/Numbers.antt =====
-- The rounds on the parameters that are numbers.
use zngtcp.Base.{ℕ, ◌*◌, ◌/◌, ◌^◌, ◌≤◌, ◌<◌, List, ◌∷◌, not, ◌==◌, arith, if◌then◌else◌}
use zngtcp.Conv.{varint_limit}
use zngtcp.Conv.Write.{encoding}
use zngtcp.Params.{
  milliseconds, max_streams, default_max_recv_udp_payload_size, default_ack_delay_exponent,
  default_max_ack_delay, TransportParams,
}
use zngtcp.Params.Decode.{idle_timeout}
use zngtcp.Params.Decode.Whole.{param_id, decode_value}
use zngtcp.Params.Encode.{limit_differs}
use zngtcp.Params.RoundTrip.Parts.{Part, wire, AreParts}
use zngtcp.Params.RoundTrip.Reads.{decode_varint_param-field}
use zngtcp.Params.RoundTrip.Steps.{Leads, part-Leads}

module _ (s : TransportParams) (ts : List Part) (n : ℕ) where
  pub bidi_local_Leads :
      AreParts ((not (n == 0), 0x05, encoding n) ∷ ts)
      → n < varint_limit
      → Leads s
          (wire ((not (n == 0), 0x05, encoding n) ∷ ts))
          (record s {
            initial_max_stream_data_bidi_local =
                if not (n == 0) then n else s.initial_max_stream_data_bidi_local;
          })
          (wire ts)
  unfolding decode_value param_id
  bidi_local_Leads h max =
      part-Leads (not (n == 0)) 0x05 (encoding n) ts s _ h
        (λ b hr. ground (arith, b, decode_varint_param-field n (wire ts) (omega (arith, max)) hr))
        (λ b. rw b)

  pub bidi_remote_Leads :
      AreParts ((not (n == 0), 0x06, encoding n) ∷ ts)
      → n < varint_limit
      → Leads s
          (wire ((not (n == 0), 0x06, encoding n) ∷ ts))
          (record s {
            initial_max_stream_data_bidi_remote =
                if not (n == 0) then n else s.initial_max_stream_data_bidi_remote;
          })
          (wire ts)
  unfolding decode_value param_id
  bidi_remote_Leads h max =
      part-Leads (not (n == 0)) 0x06 (encoding n) ts s _ h
        (λ b hr. ground (arith, b, decode_varint_param-field n (wire ts) (omega (arith, max)) hr))
        (λ b. rw b)

  pub uni_Leads :
      AreParts ((not (n == 0), 0x07, encoding n) ∷ ts)
      → n < varint_limit
      → Leads s
          (wire ((not (n == 0), 0x07, encoding n) ∷ ts))
          (record s {
            initial_max_stream_data_uni = if not (n == 0) then n else s.initial_max_stream_data_uni;
          })
          (wire ts)
  unfolding decode_value param_id
  uni_Leads h max =
      part-Leads (not (n == 0)) 0x07 (encoding n) ts s _ h
        (λ b hr. ground (arith, b, decode_varint_param-field n (wire ts) (omega (arith, max)) hr))
        (λ b. rw b)

  pub max_data_Leads :
      AreParts ((not (n == 0), 0x04, encoding n) ∷ ts)
      → n < varint_limit
      → Leads s
          (wire ((not (n == 0), 0x04, encoding n) ∷ ts))
          (record s { initial_max_data = if not (n == 0) then n else s.initial_max_data })
          (wire ts)
  unfolding decode_value param_id
  max_data_Leads h max =
      part-Leads (not (n == 0)) 0x04 (encoding n) ts s _ h
        (λ b hr. ground (arith, b, decode_varint_param-field n (wire ts) (omega (arith, max)) hr))
        (λ b. rw b)

  pub streams_bidi_Leads :
      AreParts ((not (n == 0), 0x08, encoding n) ∷ ts)
      → n ≤ max_streams
      → Leads s
          (wire ((not (n == 0), 0x08, encoding n) ∷ ts))
          (record s {
            initial_max_streams_bidi = if not (n == 0) then n else s.initial_max_streams_bidi;
          })
          (wire ts)
  unfolding decode_value param_id
  streams_bidi_Leads h max =
      part-Leads (not (n == 0)) 0x08 (encoding n) ts s _ h
        (λ b hr. ground (arith, b, decode_varint_param-field n (wire ts) (omega (arith, max)) hr))
        (λ b. rw b)

  pub streams_uni_Leads :
      AreParts ((not (n == 0), 0x09, encoding n) ∷ ts)
      → n ≤ max_streams
      → Leads s
          (wire ((not (n == 0), 0x09, encoding n) ∷ ts))
          (record s {
            initial_max_streams_uni = if not (n == 0) then n else s.initial_max_streams_uni;
          })
          (wire ts)
  unfolding decode_value param_id
  streams_uni_Leads h max =
      part-Leads (not (n == 0)) 0x09 (encoding n) ts s _ h
        (λ b hr. ground (arith, b, decode_varint_param-field n (wire ts) (omega (arith, max)) hr))
        (λ b. rw b)

  pub payload_Leads :
      AreParts ((not (n == default_max_recv_udp_payload_size), 0x03, encoding n) ∷ ts)
      → n < varint_limit
      → Leads s
          (wire ((not (n == default_max_recv_udp_payload_size), 0x03, encoding n) ∷ ts))
          (record s {
            max_udp_payload_size =
                if not (n == default_max_recv_udp_payload_size) then n else s.max_udp_payload_size;
          })
          (wire ts)
  unfolding decode_value param_id
  payload_Leads h max =
      part-Leads (not (n == default_max_recv_udp_payload_size)) 0x03 (encoding n) ts s _ h
        (λ b hr. ground (arith, b, decode_varint_param-field n (wire ts) (omega (arith, max)) hr))
        (λ b. rw b)

  pub exponent_Leads :
      AreParts ((not (n == default_ack_delay_exponent), 0x0A, encoding n) ∷ ts)
      → n ≤ 20
      → Leads s
          (wire ((not (n == default_ack_delay_exponent), 0x0A, encoding n) ∷ ts))
          (record s {
            ack_delay_exponent =
                if not (n == default_ack_delay_exponent) then n else s.ack_delay_exponent;
          })
          (wire ts)
  unfolding decode_value param_id
  exponent_Leads h max =
      part-Leads (not (n == default_ack_delay_exponent)) 0x0A (encoding n) ts s _ h
        (λ b hr. ground (arith, b, decode_varint_param-field n (wire ts) (omega (arith, max)) hr))
        (λ b. rw b)

  pub delay_Leads :
      AreParts ((not (n == default_max_ack_delay), 0x0B, encoding (n / milliseconds)) ∷ ts)
      → n < 16384 * milliseconds
      → Leads s
          (wire ((not (n == default_max_ack_delay), 0x0B, encoding (n / milliseconds)) ∷ ts))
          (record s {
            max_ack_delay =
                if not (n == default_max_ack_delay)
                then n / milliseconds * milliseconds
                else s.max_ack_delay;
          })
          (wire ts)
  unfolding decode_value param_id
  delay_Leads h max =
      part-Leads (not (n == default_max_ack_delay)) 0x0B (encoding (n / milliseconds)) ts s _ h
        (λ b hr. ground (
          arith,
          b,
          decode_varint_param-field (n / milliseconds) (wire ts) (omega (arith, max)) hr,
        ))
        (λ b. rw b)

  pub idle_Leads :
      AreParts ((not (n == 0), 0x01, encoding (n / milliseconds)) ∷ ts)
      → n < 2 ^ 64
      → Leads s
          (wire ((not (n == 0), 0x01, encoding (n / milliseconds)) ∷ ts))
          (record s {
            max_idle_timeout =
                if not (n == 0) then n / milliseconds * milliseconds else s.max_idle_timeout;
          })
          (wire ts)
  unfolding decode_value param_id idle_timeout
  idle_Leads h max =
      part-Leads (not (n == 0)) 0x01 (encoding (n / milliseconds)) ts s _ h
        (λ b hr. ground (
          arith,
          b,
          decode_varint_param-field (n / milliseconds) (wire ts) (omega (arith, max)) hr,
        ))
        (λ b. rw b)

  pub limit_Leads :
      AreParts ((limit_differs n, 0x0E, encoding n) ∷ ts)
      → n < varint_limit
      → Leads s
          (wire ((limit_differs n, 0x0E, encoding n) ∷ ts))
          (record s {
            active_connection_id_limit =
                if limit_differs n then n else s.active_connection_id_limit;
          })
          (wire ts)
  unfolding decode_value param_id
  limit_Leads h max =
      part-Leads (limit_differs n) 0x0E (encoding n) ts s _ h
        (λ b hr. ground (arith, b, decode_varint_param-field n (wire ts) (omega (arith, max)) hr))
        (λ b. rw b)

  pub datagram_Leads :
      AreParts ((not (n == 0), 0x20, encoding n) ∷ ts)
      → n < varint_limit
      → Leads s
          (wire ((not (n == 0), 0x20, encoding n) ∷ ts))
          (record s {
            max_datagram_frame_size = if not (n == 0) then n else s.max_datagram_frame_size;
          })
          (wire ts)
  unfolding decode_value param_id
  datagram_Leads h max =
      part-Leads (not (n == 0)) 0x20 (encoding n) ts s _ h
        (λ b hr. ground (arith, b, decode_varint_param-field n (wire ts) (omega (arith, max)) hr))
        (λ b. rw b)
