-- ===== src/Packet/Retry.antt =====
-- Retry packets of lib/ngtcp2_pkt.c. `ops` is NULL, or the callback `encrypt_retry` with the key that
-- the caller hands over: from a nonce and the associated data, with no plaintext, it makes a tag, or
-- returns an error. A destination is a buffer that `pkt_validate_tx_dest` takes, with `room` bytes.
pub mod Verified
pub mod Examples
use zngtcp.Base.{
  ℕ, ◌+◌, ◌-◌, ◌%◌, List, [], ◌∷◌, ◌++◌, Option, none, some, Bool, true, false, not, ◌&&◌, Outcome,
  ok, err, fault, Error, guard, assert, ◌>>=◌, ◌>>◌, invalid_argument, nobuf, proto, buf_contract,
  callback_failure, ltb, leb, ◌==◌, length, take, drop, bit_and, bit_or, if◌then◌else◌,
}
use zngtcp.Frame.Cursor.{bytes_at, advance}
use zngtcp.Packet.VersionCid.{proto_ver_v2}
use zngtcp.Packet.Header.{PktType, retry, PktFlags, PktHd}
use zngtcp.Packet.Header.Encode.{encode_hd_long}

pub record PktRetry : Type 0 where
  pub odcid : List ℕ
  pub token : List ℕ
  pub tag : List ℕ

-- NGTCP2_RETRY_TAGLEN and NGTCP2_MIN_INITIAL_DCIDLEN
abbrev pub retry_taglen : ℕ
retry_taglen = 16

abbrev pub min_initial_dcidlen : ℕ
min_initial_dcidlen = 8

-- The bytes of `pseudo_retry`
abbrev pub pseudo_room : ℕ
pseudo_room = 1500

abbrev pub Encrypt : Type 0
Encrypt = List ℕ → List ℕ → Outcome (List ℕ)

-- `memcmp`, and `ngtcp2_cid_eq`
unfoldable pub same_bytes : List ℕ → List ℕ → Bool
same_bytes [] [] = true
same_bytes (a ∷ p) (b ∷ q) = let rest = same_bytes p q in a == b && rest
same_bytes _ _ = false

-- NGTCP2_RETRY_NONCE_V1 and NGTCP2_RETRY_NONCE_V2
abbrev nonce_v1 : List ℕ
nonce_v1 = 0x46 ∷ 0x15 ∷ 0x99 ∷ 0xd3 ∷ 0x5d ∷ 0x63 ∷ 0x2b ∷ 0xf2 ∷ 0x23 ∷ 0x98 ∷ 0x25 ∷ 0xbb ∷ []

abbrev nonce_v2 : List ℕ
nonce_v2 = 0xd8 ∷ 0x69 ∷ 0x69 ∷ 0xbc ∷ 0x2d ∷ 0x7c ∷ 0x6d ∷ 0x99 ∷ 0x90 ∷ 0xef ∷ 0xb0 ∷ 0x4a ∷ []

abbrev pub nonce : ℕ → List ℕ
nonce version = if version == proto_ver_v2 then nonce_v2 else nonce_v1

abbrev callback_error : Error → Error
callback_error buf_contract = buf_contract
callback_error _ = callback_failure

unfoldable pub with_ops : Option Encrypt → Outcome Encrypt
with_ops none = err buf_contract
with_ops (some encrypt) = ok encrypt

-- What the callback makes, and the checks behind it
unfoldable pub retry_tag : Encrypt → ℕ → List ℕ → Outcome (List ℕ)
retry_tag encrypt version aad = elim (encrypt (nonce version) aad) [
  | ok tag ↦ (do guard (length tag == retry_taglen) buf_contract; ok tag)
  | err e ↦ err (callback_error e)
  | fault ↦ fault
]

unfoldable pub pkt_hd_init : PktFlags → PktType → List ℕ → List ℕ → ℕ → ℕ → ℕ → PktHd
pkt_hd_init flags type dcid scid pkt_num pkt_numlen version = record {
  flags = flags;
  type = type;
  dcid = dcid;
  scid = scid;
  pkt_num = pkt_num;
  token = [];
  pkt_numlen = pkt_numlen;
  len = 0;
  version = version;
}

-- `*p &= 0xF0U; *p |= unused;`
unfoldable pub set_unused : ℕ → List ℕ → Outcome (List ℕ)
set_unused unused [] = fault
set_unused unused (b ∷ p) = ok (bit_or (bit_and b 0xf0) unused ∷ p)

unfoldable pub encode_pseudo_retry : ℕ → PktHd → ℕ → List ℕ → List ℕ → Outcome (List ℕ)
encode_pseudo_retry destlen hd unused odcid token = do
  guard (leb (1 + length odcid) destlen) nobuf
  let destlen' = destlen - (1 + length odcid)
  header ← encode_hd_long destlen' hd
  guard (leb (length header + length token) destlen') nobuf
  header' ← set_unused unused header
  ok ((length odcid % 256) ∷ (odcid ++ (header' ++ token)))

unfoldable pub write_retry :
    Option Encrypt → ℕ → ℕ → List ℕ → List ℕ → List ℕ → List ℕ → Outcome (List ℕ)
write_retry ops room version dcid scid odcid token = do
  assert (ltb 0 (length token))
  assert (not (same_bytes scid odcid))
  guard (leb min_initial_dcidlen (length odcid)) invalid_argument
  encrypt ← with_ops ops
  let long : PktFlags = record { long_form = true; fixed_bit_clear = false; key_phase = false }
  let hd = pkt_hd_init long retry dcid scid 0 1 version
  pseudo ← encode_pseudo_retry pseudo_room hd 0 odcid token
  tag ← retry_tag encrypt version pseudo
  let offset = 1 + length odcid
  guard (leb (length pseudo + retry_taglen - offset) room) nobuf
  p ← advance offset pseudo
  ok (p ++ tag)

unfoldable pub decode_retry : PktRetry → List ℕ → Outcome PktRetry
decode_retry dest payload = do
  guard (leb (1 + retry_taglen) (length payload)) invalid_argument
  let tokenlen = length payload - retry_taglen
  token ← bytes_at tokenlen payload
  p ← advance tokenlen payload
  tag ← bytes_at retry_taglen p
  ok (record { odcid = dest.odcid; token = token; tag = tag })

unfoldable pub verify_retry_tag : Option Encrypt → ℕ → PktRetry → List ℕ → Outcome (Unit {0})
verify_retry_tag ops version ret pkt = do
  assert (leb retry_taglen (length pkt))
  guard (leb (1 + length ret.odcid + length pkt - retry_taglen) pseudo_room) proto
  encrypt ← with_ops ops
  p ← bytes_at (length pkt - retry_taglen) pkt
  tag ← retry_tag encrypt version ((length ret.odcid % 256) ∷ (ret.odcid ++ p))
  guard (same_bytes ret.tag tag) proto
