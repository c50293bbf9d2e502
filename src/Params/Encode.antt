-- ===== src/Params/Encode.antt =====
-- `ngtcp2_transport_params_encode_versioned` of lib/ngtcp2_transport_params.c, and what it calls. The
-- two passes of the source, one `if` after another, are two lists of what the branches add.
use zngtcp.Base.{
  ℕ, ◌+◌, ◌/◌, ◌%◌, List, [], ◌∷◌, ◌++◌, Bool, true, false, not, ◌&&◌, ◌||◌, Option, none, some,
  Outcome, ok, ◌>>=◌, ◌>>◌, guard, assert, nobuf, leb, ◌==◌, length, replicate, if◌then◌else◌,
}
use zngtcp.Conv.{put_uint32be, put_uvarint, put_uvarintlen}
use zngtcp.Params.{
  milliseconds, default_max_recv_udp_payload_size, default_ack_delay_exponent,
  default_max_ack_delay, default_active_connection_id_limit, PreferredAddr, VersionInfo,
  TransportParams,
}

unfoldable pub varint_paramlen : ℕ → ℕ → Outcome ℕ
varint_paramlen id param = do
  valuelen ← put_uvarintlen param
  i ← put_uvarintlen id
  l ← put_uvarintlen valuelen
  ok (i + l + valuelen)

unfoldable pub write_varint_param : ℕ → ℕ → Outcome (List ℕ)
write_varint_param id value = do
  i ← put_uvarint id
  valuelen ← put_uvarintlen value
  l ← put_uvarint valuelen
  v ← put_uvarint value
  ok (i ++ (l ++ v))

unfoldable pub zero_paramlen : ℕ → Outcome ℕ
zero_paramlen id = do i ← put_uvarintlen id; ok (i + 1)

unfoldable pub write_zero_param : ℕ → Outcome (List ℕ)
write_zero_param id = do i ← put_uvarint id; ok (i ++ 0 ∷ [])

unfoldable pub cid_paramlen : ℕ → List ℕ → Outcome ℕ
cid_paramlen id cid = do
  i ← put_uvarintlen id
  l ← put_uvarintlen (length cid)
  ok (i + l + length cid)

unfoldable pub write_cid_param : ℕ → List ℕ → Outcome (List ℕ)
write_cid_param id cid = do
  assert (length cid == 0 || leb 1 (length cid))
  assert (leb (length cid) 20)
  i ← put_uvarint id
  l ← put_uvarint (length cid)
  ok (i ++ (l ++ cid))

-- A parameter whose value is `value`, as the larger parameters are measured and written.
unfoldable pub value_paramlen : ℕ → ℕ → Outcome ℕ
value_paramlen id valuelen = do
  i ← put_uvarintlen id
  l ← put_uvarintlen valuelen
  ok (i + l + valuelen)

unfoldable pub write_value : ℕ → ℕ → List ℕ → Outcome (List ℕ)
write_value id valuelen value = do
  i ← put_uvarint id
  l ← put_uvarint valuelen
  ok (i ++ (l ++ value))

unfoldable pub preferred_addrlen : PreferredAddr → ℕ
preferred_addrlen a = 4 + 2 + 16 + 2 + 1 + length a.cid + 16

unfoldable pub write_addr : Bool → ℕ → List ℕ → List ℕ → List ℕ
write_addr present n addr port = if present then addr ++ port else replicate n 0 ++ 0 ∷ 0 ∷ []

unfoldable pub preferred_addr_bytes : PreferredAddr → List ℕ
unfolding write_addr
preferred_addr_bytes a =
    write_addr a.ipv4_present 4 a.ipv4_addr a.ipv4_port
    ++ (write_addr a.ipv6_present 16 a.ipv6_addr a.ipv6_port
        ++ ((length a.cid % 256) ∷ (a.cid ++ a.reset_token)))

unfoldable pub preferred_addr_paramlen : PreferredAddr → Outcome ℕ
unfolding value_paramlen preferred_addrlen
preferred_addr_paramlen a = do
  assert (leb 1 (length a.cid))
  assert (leb (length a.cid) 20)
  value_paramlen 0x0D (preferred_addrlen a)

unfoldable pub version_infolen : VersionInfo → ℕ
version_infolen v = 4 + length v.available_versions

unfoldable pub version_info_bytes : VersionInfo → List ℕ
unfolding put_uint32be
version_info_bytes v = put_uint32be v.chosen_version ++ v.available_versions

-- `params->active_connection_id_limit && params->active_connection_id_limit != …`
unfoldable pub limit_differs : ℕ → Bool
limit_differs n = not (n == 0) && not (n == default_active_connection_id_limit)

-- The first pass: what each parameter adds to `len`.
abbrev pub lens : TransportParams → List (Bool × Outcome ℕ)
lens s =
    (s.original_dcid_present, cid_paramlen 0x00 s.original_dcid)
    ∷ (s.stateless_reset_token_present, value_paramlen 0x02 16)
    ∷ (s.preferred_addr_present, preferred_addr_paramlen s.preferred_addr)
    ∷ (s.retry_scid_present, cid_paramlen 0x10 s.retry_scid)
    ∷ (s.initial_scid_present, cid_paramlen 0x0F s.initial_scid)
    ∷ (
      not (s.initial_max_stream_data_bidi_local == 0),
      varint_paramlen 0x05 s.initial_max_stream_data_bidi_local,
    )
    ∷ (
      not (s.initial_max_stream_data_bidi_remote == 0),
      varint_paramlen 0x06 s.initial_max_stream_data_bidi_remote,
    )
    ∷ (not (s.initial_max_stream_data_uni == 0), varint_paramlen 0x07 s.initial_max_stream_data_uni)
    ∷ (not (s.initial_max_data == 0), varint_paramlen 0x04 s.initial_max_data)
    ∷ (not (s.initial_max_streams_bidi == 0), varint_paramlen 0x08 s.initial_max_streams_bidi)
    ∷ (not (s.initial_max_streams_uni == 0), varint_paramlen 0x09 s.initial_max_streams_uni)
    ∷ (
      not (s.max_udp_payload_size == default_max_recv_udp_payload_size),
      varint_paramlen 0x03 s.max_udp_payload_size,
    )
    ∷ (
      not (s.ack_delay_exponent == default_ack_delay_exponent),
      varint_paramlen 0x0A s.ack_delay_exponent,
    )
    ∷ (s.disable_active_migration, zero_paramlen 0x0C)
    ∷ (
      not (s.max_ack_delay == default_max_ack_delay),
      varint_paramlen 0x0B (s.max_ack_delay / milliseconds),
    )
    ∷ (not (s.max_idle_timeout == 0), varint_paramlen 0x01 (s.max_idle_timeout / milliseconds))
    ∷ (
      limit_differs s.active_connection_id_limit,
      varint_paramlen 0x0E s.active_connection_id_limit,
    )
    ∷ (not (s.max_datagram_frame_size == 0), varint_paramlen 0x20 s.max_datagram_frame_size)
    ∷ (s.grease_quic_bit, zero_paramlen 0x2AB2)
    ∷ (s.version_info_present, value_paramlen 0x11 (version_infolen s.version_info))
    ∷ []

-- The second pass: what each parameter writes at `p`.
abbrev pub writes : TransportParams → List (Bool × Outcome (List ℕ))
writes s =
    (s.original_dcid_present, write_cid_param 0x00 s.original_dcid)
    ∷ (s.stateless_reset_token_present, write_value 0x02 16 s.stateless_reset_token)
    ∷ (
      s.preferred_addr_present,
      write_value 0x0D (preferred_addrlen s.preferred_addr) (preferred_addr_bytes s.preferred_addr),
    )
    ∷ (s.retry_scid_present, write_cid_param 0x10 s.retry_scid)
    ∷ (s.initial_scid_present, write_cid_param 0x0F s.initial_scid)
    ∷ (
      not (s.initial_max_stream_data_bidi_local == 0),
      write_varint_param 0x05 s.initial_max_stream_data_bidi_local,
    )
    ∷ (
      not (s.initial_max_stream_data_bidi_remote == 0),
      write_varint_param 0x06 s.initial_max_stream_data_bidi_remote,
    )
    ∷ (
      not (s.initial_max_stream_data_uni == 0),
      write_varint_param 0x07 s.initial_max_stream_data_uni,
    )
    ∷ (not (s.initial_max_data == 0), write_varint_param 0x04 s.initial_max_data)
    ∷ (not (s.initial_max_streams_bidi == 0), write_varint_param 0x08 s.initial_max_streams_bidi)
    ∷ (not (s.initial_max_streams_uni == 0), write_varint_param 0x09 s.initial_max_streams_uni)
    ∷ (
      not (s.max_udp_payload_size == default_max_recv_udp_payload_size),
      write_varint_param 0x03 s.max_udp_payload_size,
    )
    ∷ (
      not (s.ack_delay_exponent == default_ack_delay_exponent),
      write_varint_param 0x0A s.ack_delay_exponent,
    )
    ∷ (s.disable_active_migration, write_zero_param 0x0C)
    ∷ (
      not (s.max_ack_delay == default_max_ack_delay),
      write_varint_param 0x0B (s.max_ack_delay / milliseconds),
    )
    ∷ (not (s.max_idle_timeout == 0), write_varint_param 0x01 (s.max_idle_timeout / milliseconds))
    ∷ (
      limit_differs s.active_connection_id_limit,
      write_varint_param 0x0E s.active_connection_id_limit,
    )
    ∷ (not (s.max_datagram_frame_size == 0), write_varint_param 0x20 s.max_datagram_frame_size)
    ∷ (s.grease_quic_bit, write_zero_param 0x2AB2)
    ∷ (
      s.version_info_present,
      write_value 0x11 (version_infolen s.version_info) (version_info_bytes s.version_info),
    )
    ∷ []

-- `if (present) { len += …; }`, for each parameter
unfoldable pub sum_lens : List (Bool × Outcome ℕ) → Outcome ℕ
sum_lens [] = ok 0
sum_lens ((true, m) ∷ ms) = do n ← m; k ← sum_lens ms; ok (n + k)
sum_lens ((false, m) ∷ ms) = sum_lens ms

-- `if (present) { p = …; }`, for each parameter
unfoldable pub write_all : List (Bool × Outcome (List ℕ)) → Outcome (List ℕ)
write_all [] = ok []
write_all ((true, m) ∷ ms) = do b ← m; r ← write_all ms; ok (b ++ r)
write_all ((false, m) ∷ ms) = write_all ms

-- The result and the bytes that are written; `none` is `dest == NULL && destlen == 0`.
unfoldable pub encode : Option ℕ → TransportParams → Outcome (ℕ × List ℕ)
encode none s = do len ← sum_lens (lens s); ok (len, [])
encode (some destlen) s = do
  len ← sum_lens (lens s)
  guard (leb len destlen) nobuf
  bytes ← write_all (writes s)
  assert (length bytes == len)
  ok (len, bytes)
