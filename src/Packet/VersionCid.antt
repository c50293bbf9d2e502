-- ===== src/Packet/VersionCid.antt =====
-- `ngtcp2_pkt_decode_version_cid` of lib/ngtcp2_pkt.c: the part of a packet that no version changes.
pub mod Layout
use zngtcp.Base.{
  ℕ, zero, suc, ◌+◌, ◌-◌, ◌*◌, ◌/◌, ◌%◌, ◌^◌, ◌≤◌, ◌<◌, ◌≡◌, refl, List, [], ◌∷◌, Option, none,
  some, Bool, true, false, not, ◌&&◌, ◌||◌, Bool-cases, Outcome, ok, err, fault, ◌>>=◌, ◌>>◌, guard,
  assert, invalid_argument, ltb, leb, ◌==◌, length, get_elem?, take, drop, length-drop, length-take,
  All, if◌then◌else◌, arith, inl, inr,
}
use zngtcp.Conv.{IsByte, get_uint32be}
use zngtcp.Frame.Cursor.{advance, bytes_at}
use zngtcp.Frame.{max_cidlen}

-- NGTCP2_PROTO_VER_V1, NGTCP2_PROTO_VER_V2 and NGTCP2_MAX_UDP_PAYLOAD_SIZE
abbrev pub proto_ver_v1 : ℕ
proto_ver_v1 = 0x00000001

abbrev pub proto_ver_v2 : ℕ
proto_ver_v2 = 0x6b3343cf

abbrev pub max_udp_payload_size : ℕ
max_udp_payload_size = 1200

pub record VersionCid : Type 0 where
  pub version : ℕ
  pub dcid : List ℕ
  pub scid : List ℕ

unfoldable pub is_supported_version : ℕ → Bool
is_supported_version version = version == proto_ver_v1 || version == proto_ver_v2

-- `data[i]`
unfoldable pub byte_of : List ℕ → ℕ → Outcome ℕ
byte_of bytes i = elim (get_elem? bytes i) [ none ↦ fault | some b ↦ ok b ]

-- The `len` bytes at `&data[i]`
unfoldable pub slice : List ℕ → ℕ → ℕ → Outcome (List ℕ)
unfolding advance bytes_at
slice bytes i len = do p ← advance i bytes; bytes_at len p

unfoldable pub decode_long : List ℕ → Outcome (VersionCid × Bool)
unfolding byte_of slice advance is_supported_version
decode_long bytes = do
  guard (leb 7 (length bytes)) invalid_argument
  dcidlen ← byte_of bytes 5
  guard (leb (7 + dcidlen) (length bytes)) invalid_argument
  scidlen ← byte_of bytes (6 + dcidlen)
  guard (leb (7 + dcidlen + scidlen) (length bytes)) invalid_argument
  p ← advance 1 bytes
  (version, _) ← get_uint32be p
  let supported = is_supported_version version
  guard (not (supported && (ltb max_cidlen dcidlen || ltb max_cidlen scidlen))) invalid_argument
  guard (not (not (version == 0) && not supported && ltb (length bytes) max_udp_payload_size))
      invalid_argument
  dcid ← slice bytes 6 dcidlen
  scid ← slice bytes (7 + dcidlen) scidlen
  ok (record { version = version; dcid = dcid; scid = scid }, not (version == 0) && not supported)

-- With the fields of `dest`, `true` if NGTCP2_ERR_VERSION_NEGOTIATION is returned, and `false` for 0.
-- The form bit is the top bit of the first byte.
unfoldable pub decode_version_cid : List ℕ → ℕ → Outcome (VersionCid × Bool)
unfolding decode_long byte_of slice
decode_version_cid bytes short_dcidlen = do
  assert (not (length bytes == 0))
  first ← byte_of bytes 0
  (if first / 128 % 2 == 1 then decode_long bytes else (do
    assert (leb short_dcidlen max_cidlen)
    guard (leb (1 + short_dcidlen) (length bytes)) invalid_argument
    dcid ← slice bytes 1 short_dcidlen
    ok (record { version = 0; dcid = dcid; scid = [] }, false)))
