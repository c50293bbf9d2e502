-- ===== src/Packet/Header/Decode.antt =====
-- `ngtcp2_pkt_decode_hd_long` and `ngtcp2_pkt_decode_hd_short` of lib/ngtcp2_pkt.c.
use zngtcp.Base.{
  ℕ, ◌+◌, ◌-◌, ◌/◌, ◌%◌, List, [], none, some, Bool, true, false, not, ◌&&◌, Outcome, ok, err,
  ◌>>=◌, ◌>>◌, guard, assert, invalid_argument, leb, ◌==◌, length, if◌then◌else◌,
}
use zngtcp.Conv.{peek, get_uint32be, get_uvarint, get_uvarintlen}
use zngtcp.Frame.{max_cidlen}
use zngtcp.Frame.Cursor.{advance, bytes_at}
use zngtcp.Packet.VersionCid.{byte_of, slice}
use zngtcp.Packet.Header.{
  PktType, version_negotiation, initial, retry, one_rtt, PktFlags, PktHd, min_long_headerlen,
  get_type_long,
}

-- The length of a header with nothing in its fields, without the packet number
abbrev pub min_len : PktType → ℕ
min_len initial = 1 + min_long_headerlen - 1
min_len retry = 5 + 2
min_len version_negotiation = 5 + 2
min_len _ = min_long_headerlen - 1

-- The type of a header of this version and first byte
unfoldable pub long_type : ℕ → ℕ → Outcome PktType
unfolding get_type_long
long_type version c =
    if version == 0
    then ok version_negotiation
    else elim (get_type_long version c) [ none ↦ err invalid_argument | some type ↦ ok type ]

-- The token at `p`: the length of its length, the token, the new `len` and the new `p`
unfoldable pub decode_token : ℕ → PktType → ℕ → List ℕ → Outcome (ℕ × List ℕ × ℕ × List ℕ)
unfolding advance bytes_at
decode_token pktlen initial len p = do
  ntokenlen ← get_uvarintlen p
  let len' = len + ntokenlen - 1
  guard (leb len' pktlen) invalid_argument
  (vi, q) ← get_uvarint p
  guard (leb vi (pktlen - len')) invalid_argument
  token ← bytes_at vi q
  q' ← advance vi q
  ok (ntokenlen, token, len' + vi, q')
decode_token pktlen _ len p = ok (0, [], len, p)

-- The Length at `p`: the length of it, its value and the new `len`
unfoldable pub decode_length : ℕ → PktType → ℕ → List ℕ → Outcome (ℕ × ℕ × ℕ)
decode_length pktlen retry len p = ok (0, 0, len)
decode_length pktlen version_negotiation len p = ok (0, 0, len)
decode_length pktlen _ len p = do
  nlonglen ← get_uvarintlen p
  let len' = len + nlonglen - 1
  guard (leb len' pktlen) invalid_argument
  (vi, _) ← get_uvarint p
  ok (nlonglen, vi, len')

-- Both; the result has the two lengths, the token, the value of Length and the new `len`.
unfoldable pub decode_tail : ℕ → PktType → ℕ → List ℕ → Outcome (ℕ × List ℕ × ℕ × ℕ × ℕ)
unfolding decode_token decode_length
decode_tail pktlen type len p = do
  (ntokenlen, token, len', q) ← decode_token pktlen type len p
  (nlonglen, longlen, len'') ← decode_length pktlen type len' q
  ok (ntokenlen, token, nlonglen, longlen, len'')

abbrev pub is_version_negotiation : PktType → Bool
is_version_negotiation version_negotiation = true
is_version_negotiation _ = false

-- A connection ID at `p`: its length, the new `len` and the new `p`
unfoldable pub decode_cid : ℕ → ℕ → List ℕ → Outcome (ℕ × ℕ × List ℕ)
unfolding peek advance
decode_cid pktlen len p = do
  cil ← peek p
  guard (leb cil max_cidlen) invalid_argument
  guard (leb (len + cil) pktlen) invalid_argument
  q ← advance (1 + cil) p
  ok (cil, len + cil, q)

unfoldable pub decode_fields : List ℕ → ℕ → ℕ → PktType → List ℕ → Outcome (PktHd × ℕ)
decode_fields pkt first version type p = do
  guard (leb (min_len type) (length pkt)) invalid_argument
  (dcil, len1, p1) ← decode_cid (length pkt) (min_len type) p
  (scil, len, p2) ← decode_cid (length pkt) len1 p1
  (ntokenlen, token, nlonglen, longlen, len') ← decode_tail (length pkt) type len p2
  dcid ← slice pkt 6 dcil
  scid ← slice pkt (7 + dcil) scil
  assert (6 + dcil + 1 + scil + (ntokenlen + length token) + nlonglen == len')
  let vn = is_version_negotiation type
  let flags : PktFlags = record {
    long_form = not vn;
    fixed_bit_clear = not vn && not (first / 64 % 2 == 1);
    key_phase = false;
  }
  ok (
    record {
      flags = flags;
      type = type;
      dcid = dcid;
      scid = scid;
      pkt_num = 0;
      token = token;
      pkt_numlen = 0;
      len = longlen;
      version = version;
    },
    len',
  )

unfoldable pub decode_hd_long : List ℕ → Outcome (PktHd × ℕ)
unfolding byte_of advance long_type decode_fields
decode_hd_long pkt = do
  guard (leb 5 (length pkt)) invalid_argument
  first ← byte_of pkt 0
  guard (first / 128 % 2 == 1) invalid_argument
  p0 ← advance 1 pkt
  (version, p) ← get_uint32be p0
  type ← long_type version first
  decode_fields pkt first version type p

unfoldable pub decode_hd_short : List ℕ → ℕ → Outcome (PktHd × ℕ)
unfolding byte_of slice
decode_hd_short pkt dcidlen = do
  assert (leb dcidlen max_cidlen)
  guard (leb (1 + dcidlen) (length pkt)) invalid_argument
  first ← byte_of pkt 0
  guard (not (first / 128 % 2 == 1)) invalid_argument
  dcid ← slice pkt 1 dcidlen
  let flags : PktFlags = record {
    long_form = false;
    fixed_bit_clear = not (first / 64 % 2 == 1);
    key_phase = false;
  }
  ok (
    record {
      flags = flags;
      type = one_rtt;
      dcid = dcid;
      scid = [];
      pkt_num = 0;
      token = [];
      pkt_numlen = 0;
      len = 0;
      version = 0;
    },
    1 + dcidlen,
  )
