-- ===== src/Params/RoundTrip/Reads.antt =====
-- The readers of lib/ngtcp2_transport_params.c at what its writers write.
use zngtcp.Base.{
  ℕ, ◌≤◌, ◌<◌, ◌≡◌, refl, List, [], ◌++◌, ok, length, length-append, take-length_append,
  drop-length_append, All, arith,
}
use zngtcp.Conv.{IsByte, varint_limit}
use zngtcp.Conv.Write.{
  encoding, encoding-IsByte, get_uvarint-encoding, get_uvarintlen-encoding, All-append,
}
use zngtcp.Params.Decode.{
  get_bytes, decode_varint, decode_varint_param, decode_zero_param, decode_cid_param,
  decode_reset_token,
}

-- A value as it stands behind its ID, with the rest of the buffer
abbrev pub field : List ℕ → List ℕ → List ℕ
field v r = encoding (length v) ++ (v ++ r)

pub encoding_pos : (n : ℕ) → 1 ≤ length (encoding n)
unfolding encoding
encoding_pos n = ground arith

pub encoding_max : (n : ℕ) → length (encoding n) ≤ 8
unfolding encoding
encoding_max n = ground arith

pub get_bytes-append : (n : ℕ) (v r : List ℕ) → n ≡ length v → get_bytes n (v ++ r) ≡ ok (v, r)
unfolding get_bytes
get_bytes-append n v r e =
    rw e (ground (arith, length-append v r, take-length_append v r, drop-length_append v r))

pub decode_varint-encoding :
    (n : ℕ) (r : List ℕ)
    → n < varint_limit
    → All IsByte r
    → decode_varint (encoding n ++ r) ≡ ok (n, r)
unfolding decode_varint
decode_varint-encoding n r h hr = ground (
  arith,
  get_uvarint-encoding n r h hr,
  get_uvarintlen-encoding n r h,
  length-append (encoding n) r,
  encoding_pos n,
)

pub decode_varint_param-field :
    (n : ℕ) (r : List ℕ)
    → n < varint_limit
    → All IsByte r
    → decode_varint_param (field (encoding n) r) ≡ ok (n, r)
unfolding decode_varint_param
decode_varint_param-field n r h hr = ground (
  arith,
  decode_varint-encoding (length (encoding n)) (encoding n ++ r) (omega (arith, encoding_max n))
      (All-append (encoding n) r (encoding-IsByte n h) hr),
  get_uvarint-encoding n r h hr,
  get_uvarintlen-encoding n r h,
  length-append (encoding n) r,
  encoding_pos n,
)

pub decode_zero_param-field : (r : List ℕ) → decode_zero_param (field [] r) ≡ ok r
unfolding decode_zero_param encoding
decode_zero_param-field r = refl

pub decode_cid_param-field :
    (cid r : List ℕ)
    → length cid ≤ 20
    → All IsByte cid
    → All IsByte r
    → decode_cid_param (field cid r) ≡ ok (cid, r)
unfolding decode_cid_param
decode_cid_param-field cid r size hc hr = ground (
  arith,
  decode_varint-encoding (length cid) (cid ++ r) (omega arith) (All-append cid r hc hr),
  length-append cid r,
  get_bytes-append (length cid) cid r refl,
)

pub decode_reset_token-field :
    (token r : List ℕ)
    → length token ≡ 16
    → All IsByte token
    → All IsByte r
    → decode_reset_token (field token r) ≡ ok (token, r)
unfolding decode_reset_token
decode_reset_token-field token r size ht hr = ground (
  arith,
  decode_varint-encoding (length token) (token ++ r) (omega arith) (All-append token r ht hr),
  length-append token r,
  get_bytes-append 16 token r (omega arith),
)
