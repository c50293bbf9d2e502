-- ===== src/Packet/Header.antt =====
-- The long and short packet headers of lib/ngtcp2_pkt.c. A connection ID is the list of its bytes,
-- 20 at most; a token is a list, and NULL the empty one.
pub mod Layout
pub mod Tail
pub mod Decoded
pub mod Written
pub mod RoundTrip
pub mod Short
pub mod Decode
pub mod Encode
use zngtcp.Base.{
  ℕ, suc, ◌+◌, ◌-◌, ◌*◌, ◌/◌, ◌%◌, ◌^◌, List, [], ◌∷◌, ◌++◌, Option, none, some, Bool, true, false,
  not, ◌&&◌, Outcome, ok, err, fault, ◌>>=◌, ◌>>◌, guard, assert, invalid_argument, nobuf, ltb, leb,
  ◌==◌, length, bit_or, if◌then◌else◌,
}
use zngtcp.Conv.{
  peek, get_uint32be, get_uvarint, get_uvarintlen, put_uint32be, put_uvarint, put_uvarintlen,
  put_uvarint30, put_pkt_num,
}
use zngtcp.Frame.{max_cidlen}
use zngtcp.Frame.Cursor.{advance, bytes_at}
use zngtcp.Packet.VersionCid.{proto_ver_v2, is_supported_version, byte_of, slice}

-- ngtcp2_pkt_type
pub data PktType : Type 0 where
  version_negotiation initial zero_rtt handshake retry one_rtt : PktType

-- The flags NGTCP2_PKT_FLAG_LONG_FORM, NGTCP2_PKT_FLAG_FIXED_BIT_CLEAR and NGTCP2_PKT_FLAG_KEY_PHASE
pub record PktFlags : Type 0 where
  pub long_form : Bool
  pub fixed_bit_clear : Bool
  pub key_phase : Bool

pub record PktHd : Type 0 where
  pub flags : PktFlags
  pub type : PktType
  pub dcid : List ℕ
  pub scid : List ℕ
  pub pkt_num : ℕ
  pub token : List ℕ
  pub pkt_numlen : ℕ
  pub len : ℕ
  pub version : ℕ

-- NGTCP2_MIN_LONG_HEADERLEN and NGTCP2_PKT_LENGTHLEN
abbrev pub min_long_headerlen : ℕ
min_long_headerlen = 9

abbrev pub pkt_lengthlen : ℕ
pkt_lengthlen = 4

-- The types NGTCP2_PKT_TYPE_*, of two bits
unfoldable pub type_v1 : ℕ → Option PktType
type_v1 t =
    if t == 0
    then some initial
    else if t == 1
    then some zero_rtt
    else if t == 2
    then some handshake
    else if t == 3
    then some retry
    else none

unfoldable pub type_v2 : ℕ → Option PktType
type_v2 t =
    if t == 1
    then some initial
    else if t == 2
    then some zero_rtt
    else if t == 3
    then some handshake
    else if t == 0
    then some retry
    else none

-- `none` is 0.
unfoldable pub get_type_long : ℕ → ℕ → Option PktType
unfolding type_v1 type_v2 is_supported_version
get_type_long version c =
    let pkt_type = c / 16 % 4 in
    if version == proto_ver_v2
    then type_v2 pkt_type
    else if not (is_supported_version version)
    then none
    else type_v1 pkt_type

abbrev pub number_v1 : PktType → Outcome ℕ
number_v1 initial = ok 0
number_v1 zero_rtt = ok 1
number_v1 handshake = ok 2
number_v1 retry = ok 3
number_v1 _ = fault

abbrev pub number_v2 : PktType → Outcome ℕ
number_v2 initial = ok 1
number_v2 zero_rtt = ok 2
number_v2 handshake = ok 3
number_v2 retry = ok 0
number_v2 _ = fault

unfoldable pub versioned_type : ℕ → PktType → Outcome ℕ
versioned_type version type = if version == proto_ver_v2 then number_v2 type else number_v1 type
