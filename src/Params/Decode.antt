-- ===== src/Params/Decode.antt =====
-- What `ngtcp2_transport_params_decode_versioned` of lib/ngtcp2_transport_params.c calls. The
-- static functions return -1 or NGTCP2_ERR_MALFORMED_TRANSPORT_PARAM, which every caller turns into
-- the latter.
pub mod Whole
use zngtcp.Base.{
  ℕ, zero, suc, ◌+◌, ◌-◌, ◌*◌, ◌/◌, ◌%◌, ◌^◌, List, [], ◌∷◌, Bool, true, false, not, ◌&&◌, ◌||◌,
  Outcome, ok, err, fault, ◌>>=◌, ◌>>◌, guard, malformed_transport_param, ltb, leb, ◌==◌, length,
  take, drop, if◌then◌else◌,
}
use zngtcp.Conv.{peek, get_uint32be, get_uvarint, get_uvarintlen}
use zngtcp.Params.{
  milliseconds, max_streams, PreferredAddr, VersionInfo, TransportParams, defaults, ParamId,
  original_destination_connection_id, max_idle_timeout_id, stateless_reset_token_id,
  max_udp_payload_size_id, initial_max_data_id, initial_max_stream_data_bidi_local_id,
  initial_max_stream_data_bidi_remote_id, initial_max_stream_data_uni_id,
  initial_max_streams_bidi_id, initial_max_streams_uni_id, ack_delay_exponent_id, max_ack_delay_id,
  disable_active_migration_id, preferred_address, active_connection_id_limit_id,
  initial_source_connection_id, retry_source_connection_id, version_information,
  max_datagram_frame_size_id, grease_quic_bit_id, other,
}

-- `if (!b) return NGTCP2_ERR_MALFORMED_TRANSPORT_PARAM;`
abbrev pub require : Bool → Outcome (Unit {0})
require b = guard b malformed_transport_param

-- `ngtcp2_get_bytes`
unfoldable pub get_bytes : ℕ → List ℕ → Outcome (List ℕ × List ℕ)
get_bytes n p = if leb n (length p) then ok (take n p, drop n p) else fault

unfoldable pub decode_varint : List ℕ → Outcome (ℕ × List ℕ)
decode_varint p = do
  require (not (length p == 0))
  len ← get_uvarintlen p
  require (leb len (length p))
  get_uvarint p

unfoldable pub decode_varint_param : List ℕ → Outcome (ℕ × List ℕ)
decode_varint_param p = do
  (valuelen, q) ← decode_varint p
  require (not (length q == 0))
  require (leb valuelen (length q))
  len ← get_uvarintlen q
  require (len == valuelen)
  get_uvarint q

unfoldable pub decode_zero_param : List ℕ → Outcome (List ℕ)
decode_zero_param [] = err malformed_transport_param
decode_zero_param (b ∷ p) = if b == 0 then ok p else err malformed_transport_param

unfoldable pub decode_cid_param : List ℕ → Outcome (List ℕ × List ℕ)
decode_cid_param p = do
  (valuelen, q) ← decode_varint p
  require
      (not ((not (valuelen == 0) && ltb valuelen 1) || ltb 20 valuelen || ltb (length q) valuelen))
  get_bytes valuelen q

-- NGTCP2_TRANSPORT_PARAM_STATELESS_RESET_TOKEN
unfoldable pub decode_reset_token : List ℕ → Outcome (List ℕ × List ℕ)
decode_reset_token p = do
  (valuelen, q) ← decode_varint p
  require (valuelen == 16)
  require (leb 16 (length q))
  get_bytes 16 q

-- `memcmp` with `empty_address`, or a port, shows that an address is there.
unfoldable pub is_set : List ℕ → Bool
is_set [] = false
is_set (b ∷ p) = not (b == 0) || is_set p

-- The two addresses of NGTCP2_TRANSPORT_PARAM_PREFERRED_ADDRESS
unfoldable pub decode_addresses : PreferredAddr → List ℕ → Outcome (PreferredAddr × List ℕ)
decode_addresses a q = do
  (addr4, q1) ← get_bytes 4 q
  (port4, q2) ← get_bytes 2 q1
  (addr6, q3) ← get_bytes 16 q2
  (port6, q4) ← get_bytes 2 q3
  let present4 = if is_set port4 || is_set addr4 then true else a.ipv4_present
  let present6 = if is_set port6 || is_set addr6 then true else a.ipv6_present
  ok (
    record a {
      ipv4_addr = addr4;
      ipv4_port = port4;
      ipv4_present = present4;
      ipv6_addr = addr6;
      ipv6_port = port6;
      ipv6_present = present6;
    },
    q4,
  )

-- NGTCP2_TRANSPORT_PARAM_PREFERRED_ADDRESS
unfoldable pub decode_preferred_addr : PreferredAddr → List ℕ → Outcome (PreferredAddr × List ℕ)
decode_preferred_addr a p = do
  (valuelen, q) ← decode_varint p
  require (leb valuelen (length q))
  require (leb 41 valuelen)
  (a', q1) ← decode_addresses a q
  (cidlen, q2) ← get_bytes 1 q1
  n ← peek cidlen
  require (not (not (valuelen == 41 + n) || ltb 20 n || ltb n 1))
  (cid, q3) ← get_bytes n q2
  (token, q4) ← get_bytes 16 q3
  ok (record a' { cid = cid; reset_token = token }, q4)

-- The loop over the available versions, to `lend`.
unfoldable pub check_versions : List ℕ → Outcome (Unit {0})
check_versions [] = ok tt
check_versions (a ∷ b ∷ c ∷ d ∷ p) =
    let rest = check_versions p in
    if ((a * 256 + b) * 256 + c) * 256 + d == 0 then err malformed_transport_param else rest
check_versions _ = fault

-- NGTCP2_TRANSPORT_PARAM_VERSION_INFORMATION
unfoldable pub decode_version_info : VersionInfo → List ℕ → Outcome (VersionInfo × List ℕ)
decode_version_info v p = do
  (valuelen, q) ← decode_varint p
  require (leb valuelen (length q))
  require (not (ltb valuelen 4 || not (valuelen % 4 == 0)))
  (chosen, q1) ← get_uint32be q
  require (not (chosen == 0))
  let some_available = (do
    (versions, q2) ← get_bytes (valuelen - 4) q1
    check_versions versions
    ok (record { chosen_version = chosen; available_versions = versions }, q2))
  (if ltb 4 valuelen then some_available else ok (record v { chosen_version = chosen }, q1))

-- The `default` of the `switch`
unfoldable pub skip_unknown : List ℕ → Outcome (List ℕ)
skip_unknown p = do
  (valuelen, q) ← decode_varint p
  require (leb valuelen (length q))
  (_, q') ← get_bytes valuelen q
  ok q'

unfoldable pub idle_timeout : ℕ → ℕ
idle_timeout v =
    let v' = if ltb ((2 ^ 64 - 1) / milliseconds) v then 2 ^ 64 - 1 else v in
    v' * milliseconds % 2 ^ 64
