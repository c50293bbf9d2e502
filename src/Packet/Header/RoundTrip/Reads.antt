-- ===== src/Packet/Header/RoundTrip/Reads.antt =====
-- The layout of a long header, read from what `ngtcp2_pkt_encode_hd_long` of lib/ngtcp2_pkt.c writes.
use zngtcp.Base.{
  ℕ, ◌+◌, ◌*◌, ◌/◌, ◌%◌, ◌^◌, ◌≤◌, ◌<◌, ◌≡◌, inl, inr, List, [], ◌∷◌, ◌++◌, some, true, false,
  Bool-cases, length, All, arith, if◌then◌else◌, append_assoc,
}
use zngtcp.Conv.{IsByte, varint_limit, put_uint32be}
use zngtcp.Conv.Read.{read_varint}
use zngtcp.Conv.Write.{encoding, read_varint-encoding}
use zngtcp.Packet.VersionCid.{is_supported_version}
use zngtcp.Packet.VersionNegotiation.{read_bytes-append}
use zngtcp.Frame.Layout.{read_block}
use zngtcp.Packet.Header.{PktHd}
use zngtcp.Packet.Header.Encode.{has_length, long_first}
use zngtcp.Packet.Header.Layout.{
  read_cid20, read_tail, read_type, read_fields, read_hd_long, long_hd,
}
use zngtcp.Packet.Header.Written.{
  is_long, FirstBits, sent_token, token_bytes, length_bytes, end_bytes, wire,
}

read_cid20-append :
    (cid p : List ℕ) → length cid ≤ 20 → read_cid20 (length cid ∷ (cid ++ p)) ≡ some (cid, p)
unfolding read_cid20
read_cid20-append cid p short = ground (arith, read_bytes-append cid p, short)

read_varint-length_bytes :
    (n : ℕ) (p : List ℕ) → n < 2 ^ 30 → read_varint (length_bytes n ++ p) ≡ some (n, p)
unfolding read_varint
read_varint-length_bytes n p small = ground arith

-- Length, as it is read
abbrev sent_len : PktHd → ℕ
sent_len hd = if has_length hd.type then hd.len else 0

read_block-encoding :
    (token p : List ℕ)
    → length token < varint_limit
    → read_block ((encoding (length token) ++ token) ++ p) ≡ some (token, p)
unfolding read_block
read_block-encoding token p small =
    rw (append_assoc (encoding (length token)) token p) ground
      (arith, read_varint-encoding (length token) (token ++ p) small, read_bytes-append token p)

read_tail-wire :
    (hd : PktHd) (pkt_num r : List ℕ)
    → is_long hd.type ≡ true
    → length hd.token < varint_limit
    → hd.len < 2 ^ 30
    → read_tail hd.type ((token_bytes hd ++ end_bytes hd pkt_num) ++ r)
      ≡ some ((sent_token hd, sent_len hd), (if has_length hd.type then pkt_num ++ r else r))
unfolding read_tail
read_tail-wire hd pkt_num r long token len =
    let num = read_varint-length_bytes hd.len (pkt_num ++ r) len in
    let block = read_block-encoding hd.token (length_bytes hd.len ++ (pkt_num ++ r)) token in
    ground (
      arith,
      num,
      block,
      append_assoc (encoding (length hd.token) ++ hd.token) (length_bytes hd.len ++ pkt_num) r,
      long,
    )

-- What the decoder leaves: the packet number, which it does not read, and the rest
abbrev pub left_over : PktHd → List ℕ → List ℕ → List ℕ
left_over hd pkt_num r = if has_length hd.type then pkt_num ++ r else r

abbrev cids_and : List ℕ → List ℕ → List ℕ → List ℕ
cids_and dcid scid p = length dcid ∷ (dcid ++ (length scid ∷ (scid ++ p)))

cids_and-append : (dcid scid p r : List ℕ) → cids_and dcid scid p ++ r ≡ cids_and dcid scid (p ++ r)
cids_and-append dcid scid p r =
    cc (append_assoc dcid (length scid ∷ (scid ++ p)) r, append_assoc scid p r)

behind-split :
    (hd : PktHd) (pkt_num r : List ℕ)
    → (token_bytes hd ++ end_bytes hd pkt_num) ++ r
      ≡ (token_bytes hd ++ end_bytes hd []) ++ left_over hd pkt_num r
behind-split hd pkt_num r =
    let l = length_bytes hd.len in
    let t = token_bytes hd in
    elim (Bool-cases (has_length hd.type)) [
      | inl has ↦
          ground
            (arith, has, append_assoc t (l ++ pkt_num) r, append_assoc t (l ++ []) (pkt_num ++ r))
      | inr not' ↦ ground (arith, not')
    ]

pub wire-split :
    (type : ℕ) (hd : PktHd) (pkt_num r : List ℕ)
    → wire type hd pkt_num ++ r ≡ wire type hd [] ++ left_over hd pkt_num r
unfolding put_uint32be
wire-split type hd pkt_num r =
    let t = token_bytes hd in
    cc (
      cids_and-append hd.dcid hd.scid (t ++ end_bytes hd pkt_num) r,
      cids_and-append hd.dcid hd.scid (t ++ end_bytes hd []) (left_over hd pkt_num r),
      behind-split hd pkt_num r,
    )

-- What arrives: the packet number is still protected, and not read.
abbrev pub received : PktHd → PktHd
received hd = record {
  flags = record {
    long_form = true;
    fixed_bit_clear = hd.flags.fixed_bit_clear;
    key_phase = false;
  };
  type = hd.type;
  dcid = hd.dcid;
  scid = hd.scid;
  pkt_num = 0;
  token = sent_token hd;
  pkt_numlen = 0;
  len = sent_len hd;
  version = hd.version;
}

-- A header that the library sends
pub record Sendable (hd : PktHd) : Type 0 where
  pub supported : is_supported_version hd.version ≡ true
  pub long : is_long hd.type ≡ true
  pub cids : (length hd.dcid ≤ 20) × (length hd.scid ≤ 20)
  pub dcid_bytes : All IsByte hd.dcid
  pub scid_bytes : All IsByte hd.scid
  pub token : All IsByte hd.token
  pub tokenlen : length hd.token < varint_limit
  pub len : hd.len < 2 ^ 30
  pub pkt_numlen : (1 ≤ hd.pkt_numlen) × (hd.pkt_numlen ≤ 4)

pub supported-small :
    (version : ℕ) → is_supported_version version ≡ true → (0 < version) × (version < 2 ^ 32)
unfolding is_supported_version
supported-small version h = (ground (arith, h), ground (arith, h))

pub read_hd_long-wire :
    (type : ℕ) (hd : PktHd) (pkt_num r : List ℕ)
    → Sendable hd
    → FirstBits (long_first type hd) type hd.pkt_numlen hd.flags.fixed_bit_clear
    → read_type (long_first type hd) hd.version ≡ some hd.type
    → read_hd_long (wire type hd pkt_num ++ r) ≡ some (received hd, left_over hd pkt_num r)
unfolding read_hd_long read_fields long_hd put_uint32be
read_hd_long-wire type hd pkt_num r h bits numbered =
    let t = token_bytes hd in
    let behind = (t ++ end_bytes hd pkt_num) ++ r in
    let two = h.cids in
    let cids = cids_and-append hd.dcid hd.scid (t ++ end_bytes hd pkt_num) r in
    let version : ((hd.version / 2 ^ 24 % 256 * 256 + hd.version / 2 ^ 16 % 256) * 256
              + hd.version / 256 % 256)
            * 256
          + hd.version % 256
        ≡ hd.version =
      omega (arith, supported-small hd.version h.supported) in
    ground (
      arith,
      cids,
      version,
      read_cid20-append hd.dcid (length hd.scid ∷ (hd.scid ++ behind)) two.0,
      read_cid20-append hd.scid behind two.1,
      read_tail-wire hd pkt_num r h.long h.tokenlen h.len,
      bits.form,
      bits.fixed,
      numbered,
      h.long,
    )
