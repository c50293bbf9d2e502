-- ===== src/Params/Examples.antt =====
-- The transport parameters of a server with a preferred address and two versions.
use zngtcp.Base.{
  ℕ, ◌^◌, ◌*◌, ◌-◌, ◌≡◌, ◌⊎◌, refl, List, [], ◌∷◌, true, false, none, some, ok, err, nobuf,
  malformed_transport_param, leb, length, replicate, All, arith, if◌then◌else◌, ◌≢◌, fault, ltb,
}
use zngtcp.Conv.{IsByte, get_uvarint, get_uvarintlen}
use zngtcp.Conv.Bytes.{are_bytes, are_bytes_sound}
use zngtcp.Params.{TransportParams, milliseconds, defaults}
use zngtcp.Params.Decode.{
  check_versions, is_set, idle_timeout, decode_varint, decode_varint_param, skip_unknown, get_bytes,
}
use zngtcp.Params.Decode.Whole.{decode, decode_loop, decode_param, decode_value, param_id}
use zngtcp.Params.Encode.{encode}
use zngtcp.Params.Idle.{idle_timeout-eq}
use zngtcp.Params.Safe.Whole.{IsAcceptable, decode-IsAcceptable, decode-rounds}
use zngtcp.Params.RoundTrip.{IsEncodable, received}
use zngtcp.Params.RoundTrip.Whole.{decode-encode-received}

abbrev eight_bytes : List ℕ
eight_bytes = 0xfe ∷ 1 ∷ 2 ∷ 3 ∷ 4 ∷ 5 ∷ 6 ∷ 7 ∷ []

abbrev server : TransportParams
server = record defaults {
  original_dcid = eight_bytes;
  original_dcid_present = true;
  stateless_reset_token = replicate 16 0xa5;
  stateless_reset_token_present = true;
  preferred_addr = record {
    cid = eight_bytes;
    ipv4_addr = 192 ∷ 0 ∷ 2 ∷ 7 ∷ [];
    ipv4_port = 0x11 ∷ 0x51 ∷ [];
    ipv6_addr = replicate 16 0;
    ipv6_port = replicate 2 0;
    ipv4_present = true;
    ipv6_present = false;
    reset_token = replicate 16 0x5a;
  };
  preferred_addr_present = true;
  initial_max_data = 1048576;
  initial_max_streams_bidi = 100;
  max_idle_timeout = 30000500000;
  active_connection_id_limit = 0;
  version_info = record {
    chosen_version = 1;
    available_versions = 0 ∷ 0 ∷ 0 ∷ 1 ∷ 0x6b ∷ 0x33 ∷ 0x43 ∷ 0xcf ∷ [];
  };
  version_info_present = true;
}

server-IsEncodable : IsEncodable server
unfolding check_versions is_set
server-IsEncodable = record {
  original = λ e. record { size = omega arith; bytes = omega arith };
  token = λ e. record { size = refl; bytes = omega arith };
  preferred = λ e. record {
    cid = record { size = omega arith; bytes = omega arith };
    cid_pos = omega arith;
    ipv4 = record {
      addr_size = λ e. refl;
      addr_bytes = λ e. omega arith;
      port_size = λ e. refl;
      port_bytes = λ e. omega arith;
      nonzero = λ e. refl;
    };
    ipv6 = record {
      addr_size = λ e. refl;
      addr_bytes = λ e. omega arith;
      port_size = λ e. refl;
      port_bytes = λ e. omega arith;
      nonzero = λ e. cc;
    };
    token = record { size = refl; bytes = omega arith };
  };
  retry = λ e. cc;
  initial = λ e. cc;
  bidi_local = omega arith;
  bidi_remote = omega arith;
  uni = omega arith;
  max_data = omega arith;
  streams_bidi = omega arith;
  streams_uni = omega arith;
  payload = omega arith;
  exponent = omega arith;
  delay = omega arith;
  idle = omega arith;
  limit = omega arith;
  datagram = omega arith;
  versions = λ e. record {
    chosen_pos = omega arith;
    chosen_max = omega arith;
    whole = omega arith;
    size = omega arith;
    bytes = omega arith;
    nonzero = refl;
  };
}

decode-encode-received_example :
    (bytes : List ℕ) × (encode none server ≡ ok (length bytes, []))
    × ((destlen : ℕ)
        → encode (some destlen) server
          ≡ (if leb (length bytes) destlen then ok (length bytes, bytes) else err nobuf))
    × All IsByte bytes
    × (decode bytes ≡ ok (received server))
decode-encode-received_example = decode-encode-received server server-IsEncodable

-- An idle timeout of 30 s, an unknown parameter, and 1025 streams.
abbrev three_params : List ℕ
three_params = 1 ∷ 4 ∷ 0x80 ∷ 0 ∷ 0x75 ∷ 0x30 ∷ 27 ∷ 2 ∷ 9 ∷ 9 ∷ 8 ∷ 2 ∷ 0x44 ∷ 1 ∷ []

three_params_decoded :
    decode three_params
    ≡ ok (record defaults { max_idle_timeout = 30000000000; initial_max_streams_bidi = 1025 })
unfolding decode decode_loop decode_param decode_varint get_uvarintlen get_uvarint decode_value
    param_id decode_varint_param skip_unknown get_bytes idle_timeout
three_params_decoded = refl

decode-IsAcceptable_example :
    ((s : TransportParams) × (decode three_params ≡ ok s) × IsAcceptable s)
    ⊎ (decode three_params ≡ err malformed_transport_param)
unfolding are_bytes
decode-IsAcceptable_example = decode-IsAcceptable three_params (are_bytes_sound three_params refl)

idle_timeout-eq_example : idle_timeout (2 ^ 50) ≡ (
    if ltb (2 ^ 50 * milliseconds) (2 ^ 64) then 2 ^ 50 * milliseconds else 2 ^ 64 - milliseconds)
idle_timeout-eq_example = idle_timeout-eq (2 ^ 50)

decode-rounds_example :
    (decode_loop 100 defaults three_params ≡ decode three_params) × (decode three_params ≢ fault)
unfolding are_bytes
decode-rounds_example =
    decode-rounds 100 three_params (are_bytes_sound three_params refl) (omega arith)
