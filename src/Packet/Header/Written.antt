-- ===== src/Packet/Header/Written.antt =====
-- The bytes that `ngtcp2_pkt_encode_hd_long` of lib/ngtcp2_pkt.c writes.
use zngtcp.Base.{
  ℕ, ◌+◌, ◌-◌, ◌*◌, ◌/◌, ◌%◌, ◌^◌, ◌≤◌, ◌<◌, ◌≡◌, refl, inl, inr, List, [], ◌∷◌, ◌++◌, some, Bool,
  true, false, not, ◌&&◌, Bool-cases, all_below, all_below-lt, ok, err, nobuf, leb, ltb, ◌==◌,
  length, length-append, arith, if◌then◌else◌, bit_or, or_0x80,
}
use zngtcp.Conv.{varint_limit, put_uint32be, put_uvarint30, put_pkt_num}
use zngtcp.Conv.Write.{encoding, put_uvarint-encoding, put_uvarintlen-encoding}
use zngtcp.Packet.VersionCid.{proto_ver_v2, is_supported_version}
use zngtcp.Packet.Header.{
  PktType, version_negotiation, initial, zero_rtt, handshake, retry, one_rtt, PktHd, get_type_long,
  versioned_type, number_v1, number_v2, type_v1, type_v2, min_long_headerlen, pkt_lengthlen,
}
use zngtcp.Packet.Header.Encode.{
  token_len, has_length, long_first, put_token, put_length, encode_hd_long,
}

-- The long packet types that have a number in a header
abbrev pub is_long : PktType → Bool
is_long version_negotiation = false
is_long one_rtt = false
is_long _ = true

abbrev byte_bits : ℕ → ℕ → ℕ → ℕ → Bool
byte_bits byte type fixed low =
    byte / 128 % 2 == 1
    && byte / 16 % 4 == type
    && byte / 64 % 2 == fixed
    && byte % 16 == low
    && ltb byte 256

abbrev number_bits : ℕ → ℕ → Bool
number_bits type low =
    let byte = bit_or (bit_or 0x80 (type * 16)) low % 256 in
    byte_bits byte type 0 low && byte_bits (bit_or byte 0x40) type 1 low

number_bit : (type low : ℕ) → type < 4 → low < 4 → number_bits type low ≡ true
number_bit type low lt lt' =
    all_below-lt (number_bits type) 4
      (all_below-lt (λ t. all_below (number_bits t) 4) 4 refl type lt) low lt'

-- The bits of a first byte
pub record FirstBits (first type numlen : ℕ) (clear : Bool) : Type 0 where
  pub form : first / 128 % 2 ≡ 1
  pub number : first / 16 % 4 ≡ type
  pub fixed : not (first / 64 % 2 == 1) ≡ clear
  pub low : first % 16 ≡ numlen - 1
  pub small : first < 256

read_bits :
    (bare fixed type numlen : ℕ) (clear : Bool)
    → byte_bits bare type 0 (numlen - 1) && byte_bits fixed type 1 (numlen - 1) ≡ true
    → FirstBits (if clear then bare else fixed) type numlen clear
read_bits bare fixed type numlen clear bits = record {
  form = ground (arith, bits);
  number = ground (arith, bits);
  fixed = ground (arith, bits);
  low = ground (arith, bits);
  small = ground (arith, bits);
}

pub first-bits :
    (type : ℕ) (hd : PktHd)
    → type < 4
    → 1 ≤ hd.pkt_numlen
    → hd.pkt_numlen ≤ 4
    → FirstBits (long_first type hd) type hd.pkt_numlen hd.flags.fixed_bit_clear
unfolding long_first
first-bits type hd lt lo hi =
    let low : (hd.pkt_numlen + 2 ^ 32 - 1) % 2 ^ 32 ≡ hd.pkt_numlen - 1 = omega (arith, lo, hi) in
    rw (low) (
      read_bits _ _ type hd.pkt_numlen hd.flags.fixed_bit_clear
        (number_bit type (hd.pkt_numlen - 1) lt (omega (arith, lo, hi))))

-- The number of a type in this version
pub record Numbered (version : ℕ) (type : PktType) : Type 0 where
  pub n : ℕ
  pub small : n < 4
  pub written : versioned_type version type ≡ ok n
  pub read : (first : ℕ) → first / 16 % 4 ≡ n → get_type_long version first ≡ some type

numbered_by :
    (version : ℕ) (type : PktType) (n1 n2 : ℕ)
    → is_supported_version version ≡ true
    → (n1 < 4) × (n2 < 4)
    → (number_v1 type ≡ ok n1) × (number_v2 type ≡ ok n2)
    → (type_v1 n1 ≡ some type) × (type_v2 n2 ≡ some type)
    → Numbered version type
unfolding versioned_type get_type_long
numbered_by version type n1 n2 supported small written read =
    elim (Bool-cases (version == proto_ver_v2)) [
      | inl two ↦ record {
        n = n2;
        small = small.1;
        written = ground (arith, two, written.1);
        read = λ first is. ground (arith, two, is, read.1);
      }
      | inr one ↦ record {
        n = n1;
        small = small.0;
        written = ground (arith, one, written.0);
        read = λ first is. ground (arith, one, supported, is, read.0);
      }
    ]

pub type-numbered :
    (version : ℕ) (type : PktType)
    → is_supported_version version ≡ true
    → is_long type ≡ true
    → Numbered version type
unfolding type_v1 type_v2
type-numbered version initial is long =
    numbered_by version initial 0 1 is (omega arith, omega arith) (refl, refl) (refl, refl)
type-numbered version zero_rtt is long =
    numbered_by version zero_rtt 1 2 is (omega arith, omega arith) (refl, refl) (refl, refl)
type-numbered version handshake is long =
    numbered_by version handshake 2 3 is (omega arith, omega arith) (refl, refl) (refl, refl)
type-numbered version retry is long =
    numbered_by version retry 3 0 is (omega arith, omega arith) (refl, refl) (refl, refl)
type-numbered version version_negotiation is long = cc
type-numbered version one_rtt is long = cc

abbrev pub sent_token : PktHd → List ℕ
sent_token hd = elim hd.type [ initial ↦ hd.token | _ ↦ [] ]

abbrev pub token_bytes : PktHd → List ℕ
token_bytes hd = elim hd.type [ initial ↦ encoding (length hd.token) ++ hd.token | _ ↦ [] ]

abbrev pub length_bytes : ℕ → List ℕ
length_bytes n = (n / 2 ^ 24 + 128) ∷ (n / 2 ^ 16 % 256) ∷ (n / 256 % 256) ∷ (n % 256) ∷ []

pub put_token_lem :
    (hd : PktHd) → length hd.token < varint_limit → put_token hd ≡ ok (token_bytes hd)
unfolding put_token
put_token_lem hd h = ground (arith, put_uvarint-encoding (length hd.token) h)

pub token_len_lem :
    (hd : PktHd) → length hd.token < varint_limit → token_len hd ≡ ok (length (token_bytes hd))
unfolding token_len
token_len_lem hd h = ground (
  arith,
  put_uvarintlen-encoding (length hd.token) h,
  length-append (encoding (length hd.token)) hd.token,
)

-- Behind the token: nothing in a Retry packet, else Length and the bytes of the packet number
abbrev pub end_bytes : PktHd → List ℕ → List ℕ
end_bytes hd pkt_num = if has_length hd.type then length_bytes hd.len ++ pkt_num else []

put_length_lem :
    (hd : PktHd) (pkt_num : List ℕ)
    → hd.len < 2 ^ 30
    → put_pkt_num hd.pkt_num hd.pkt_numlen ≡ ok pkt_num
    → put_length hd ≡ ok (end_bytes hd pkt_num)
unfolding put_length put_uvarint30
put_length_lem hd pkt_num small written =
    let same : hd.len % 2 ^ 32 ≡ hd.len = omega (arith, small) in
    ground (arith, same, or_0x80 (hd.len / 2 ^ 24 % 256), written)

-- The fields in their order
abbrev pub wire : ℕ → PktHd → List ℕ → List ℕ
wire type hd pkt_num =
    let behind = token_bytes hd ++ end_bytes hd pkt_num in
    let cids = length hd.dcid ∷ (hd.dcid ++ (length hd.scid ∷ (hd.scid ++ behind))) in
    long_first type hd ∷ (put_uint32be hd.version ++ cids)

length-wire :
    (type : ℕ) (hd : PktHd) (pkt_num : List ℕ)
    → length pkt_num ≡ hd.pkt_numlen
    → length (wire type hd pkt_num)
      ≡ (if has_length hd.type
          then min_long_headerlen
            + length hd.dcid
            + length hd.scid
            - 2
            + (pkt_lengthlen + hd.pkt_numlen)
          else min_long_headerlen + length hd.dcid + length hd.scid - 2)
        + length (token_bytes hd)
unfolding put_uint32be
length-wire type hd pkt_num size = ground (
  arith,
  size,
  length-append hd.dcid (length hd.scid ∷ (hd.scid ++ (token_bytes hd ++ end_bytes hd pkt_num))),
  length-append hd.scid (token_bytes hd ++ end_bytes hd pkt_num),
  length-append (token_bytes hd) (end_bytes hd pkt_num),
  length-append (length_bytes hd.len) pkt_num,
)

pub encode-wire :
    (outlen : ℕ) (hd : PktHd) (type : ℕ) (pkt_num : List ℕ)
    → (length hd.dcid ≤ 20) × (length hd.scid ≤ 20)
    → length hd.token < varint_limit
    → hd.len < 2 ^ 30
    → versioned_type hd.version hd.type ≡ ok type
    → put_pkt_num hd.pkt_num hd.pkt_numlen ≡ ok pkt_num
    → length pkt_num ≡ hd.pkt_numlen
    → encode_hd_long outlen hd ≡ (
        if leb (length (wire type hd pkt_num)) outlen then ok (wire type hd pkt_num) else err nobuf)
unfolding encode_hd_long
encode-wire outlen hd type pkt_num cids token len number written size =
    let (d, s) = cids in
    let d' : length hd.dcid % 256 ≡ length hd.dcid = omega (arith, d) in
    let s' : length hd.scid % 256 ≡ length hd.scid = omega (arith, s) in
    let long = length-wire type hd pkt_num size in
    ground (
      arith,
      d',
      s',
      token_len_lem hd token,
      put_token_lem hd token,
      put_length_lem hd pkt_num len written,
      number,
      long,
    )
