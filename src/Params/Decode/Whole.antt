-- ===== src/Params/Decode/Whole.antt =====
-- The loop of `ngtcp2_transport_params_decode_versioned` of lib/ngtcp2_transport_params.c.
use zngtcp.Base.{
  ℕ, zero, suc, ◌*◌, List, true, Outcome, ok, fault, ◌>>=◌, ◌>>◌, ltb, leb, ◌==◌, length,
  if◌then◌else◌,
}
use zngtcp.Params.{
  milliseconds, max_streams, TransportParams, defaults, ParamId, original_destination_connection_id,
  max_idle_timeout_id, stateless_reset_token_id, max_udp_payload_size_id, initial_max_data_id,
  initial_max_stream_data_bidi_local_id, initial_max_stream_data_bidi_remote_id,
  initial_max_stream_data_uni_id, initial_max_streams_bidi_id, initial_max_streams_uni_id,
  ack_delay_exponent_id, max_ack_delay_id, disable_active_migration_id, preferred_address,
  active_connection_id_limit_id, initial_source_connection_id, retry_source_connection_id,
  version_information, max_datagram_frame_size_id, grease_quic_bit_id, other,
}
use zngtcp.Params.Decode.{
  require, decode_varint, decode_varint_param, decode_zero_param, decode_cid_param,
  decode_reset_token, decode_preferred_addr, decode_version_info, skip_unknown, idle_timeout,
}

unfoldable pub param_id : ℕ → ParamId
param_id n =
    if n == 0x05
    then initial_max_stream_data_bidi_local_id
    else if n == 0x06
    then initial_max_stream_data_bidi_remote_id
    else if n == 0x07
    then initial_max_stream_data_uni_id
    else if n == 0x04
    then initial_max_data_id
    else if n == 0x08
    then initial_max_streams_bidi_id
    else if n == 0x09
    then initial_max_streams_uni_id
    else if n == 0x01
    then max_idle_timeout_id
    else if n == 0x03
    then max_udp_payload_size_id
    else if n == 0x02
    then stateless_reset_token_id
    else if n == 0x0A
    then ack_delay_exponent_id
    else if n == 0x0D
    then preferred_address
    else if n == 0x0C
    then disable_active_migration_id
    else if n == 0x00
    then original_destination_connection_id
    else if n == 0x10
    then retry_source_connection_id
    else if n == 0x0F
    then initial_source_connection_id
    else if n == 0x0B
    then max_ack_delay_id
    else if n == 0x0E
    then active_connection_id_limit_id
    else if n == 0x20
    then max_datagram_frame_size_id
    else if n == 0x2AB2
    then grease_quic_bit_id
    else if n == 0x11
    then version_information
    else other

-- The cases of the `switch`
unfoldable pub decode_value :
    ParamId → TransportParams → List ℕ → Outcome (TransportParams × List ℕ)
decode_value initial_max_stream_data_bidi_local_id s p = do
  (v, q) ← decode_varint_param p
  ok (record s { initial_max_stream_data_bidi_local = v }, q)
decode_value initial_max_stream_data_bidi_remote_id s p = do
  (v, q) ← decode_varint_param p
  ok (record s { initial_max_stream_data_bidi_remote = v }, q)
decode_value initial_max_stream_data_uni_id s p = do
  (v, q) ← decode_varint_param p
  ok (record s { initial_max_stream_data_uni = v }, q)
decode_value initial_max_data_id s p = do
  (v, q) ← decode_varint_param p
  ok (record s { initial_max_data = v }, q)
decode_value initial_max_streams_bidi_id s p = do
  (v, q) ← decode_varint_param p
  require (leb v max_streams)
  ok (record s { initial_max_streams_bidi = v }, q)
decode_value initial_max_streams_uni_id s p = do
  (v, q) ← decode_varint_param p
  require (leb v max_streams)
  ok (record s { initial_max_streams_uni = v }, q)
decode_value max_idle_timeout_id s p = do
  (v, q) ← decode_varint_param p
  ok (record s { max_idle_timeout = idle_timeout v }, q)
decode_value max_udp_payload_size_id s p = do
  (v, q) ← decode_varint_param p
  ok (record s { max_udp_payload_size = v }, q)
decode_value stateless_reset_token_id s p = do
  (token, q) ← decode_reset_token p
  ok (record s { stateless_reset_token = token; stateless_reset_token_present = true }, q)
decode_value ack_delay_exponent_id s p = do
  (v, q) ← decode_varint_param p
  require (leb v 20)
  ok (record s { ack_delay_exponent = v }, q)
decode_value preferred_address s p = do
  (a, q) ← decode_preferred_addr s.preferred_addr p
  ok (record s { preferred_addr = a; preferred_addr_present = true }, q)
decode_value disable_active_migration_id s p = do
  q ← decode_zero_param p
  ok (record s { disable_active_migration = true }, q)
decode_value original_destination_connection_id s p = do
  (cid, q) ← decode_cid_param p
  ok (record s { original_dcid = cid; original_dcid_present = true }, q)
decode_value retry_source_connection_id s p = do
  (cid, q) ← decode_cid_param p
  ok (record s { retry_scid = cid; retry_scid_present = true }, q)
decode_value initial_source_connection_id s p = do
  (cid, q) ← decode_cid_param p
  ok (record s { initial_scid = cid; initial_scid_present = true }, q)
decode_value max_ack_delay_id s p = do
  (v, q) ← decode_varint_param p
  require (ltb v 16384)
  ok (record s { max_ack_delay = v * milliseconds }, q)
decode_value active_connection_id_limit_id s p = do
  (v, q) ← decode_varint_param p
  ok (record s { active_connection_id_limit = v }, q)
decode_value max_datagram_frame_size_id s p = do
  (v, q) ← decode_varint_param p
  ok (record s { max_datagram_frame_size = v }, q)
decode_value grease_quic_bit_id s p = do
  q ← decode_zero_param p
  ok (record s { grease_quic_bit = true }, q)
decode_value version_information s p = do
  (v, q) ← decode_version_info s.version_info p
  ok (record s { version_info = v; version_info_present = true }, q)
decode_value other s p = do q ← skip_unknown p; ok (s, q)

-- The body of the loop
unfoldable pub decode_param : TransportParams → List ℕ → Outcome (TransportParams × List ℕ)
decode_param s p = do (n, q) ← decode_varint p; decode_value (param_id n) s q

-- The loop, with at most `fuel` rounds, and the check behind it
unfoldable pub decode_loop : ℕ → TransportParams → List ℕ → Outcome TransportParams
decode_loop zero s p = if length p == 0 then ok s else fault
decode_loop (suc fuel) s p =
    let round = (do (s', q) ← decode_param s p; decode_loop fuel s' q) in
    if leb 2 (length p) then round else (do require (length p == 0); ok s)

unfoldable pub decode : List ℕ → Outcome TransportParams
decode p = decode_loop (length p) defaults p
