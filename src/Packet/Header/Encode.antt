-- ===== src/Packet/Header/Encode.antt =====
-- `ngtcp2_pkt_encode_hd_long` and `ngtcp2_pkt_encode_hd_short` of lib/ngtcp2_pkt.c.
use zngtcp.Base.{
  ℕ, ◌+◌, ◌-◌, ◌*◌, ◌%◌, ◌^◌, List, [], ◌∷◌, ◌++◌, Bool, true, false, Outcome, ok, ◌>>=◌, ◌>>◌,
  guard, assert, nobuf, leb, ◌==◌, length, bit_or, if◌then◌else◌,
}
use zngtcp.Conv.{put_uint32be, put_uvarint, put_uvarintlen, put_uvarint30, put_pkt_num}
use zngtcp.Packet.Header.{
  PktType, initial, retry, PktHd, min_long_headerlen, pkt_lengthlen, versioned_type,
}

-- What the source counts, before it writes, for the token and for Length and the packet number
unfoldable pub token_len : PktHd → Outcome ℕ
token_len hd = elim hd.type [
  | initial ↦ (do n ← put_uvarintlen (length hd.token); ok (n + length hd.token))
  | _ ↦ ok 0
]

abbrev pub has_length : PktType → Bool
has_length retry = false
has_length _ = true

-- `or` with `(uint32_t)(hd->pkt_numlen - 1)`, and the fixed bit
unfoldable pub long_first : ℕ → PktHd → ℕ
long_first type hd =
    let low = (hd.pkt_numlen + 2 ^ 32 - 1) % 2 ^ 32 in
    let byte = bit_or (bit_or 0x80 (type * 16)) low % 256 in
    if hd.flags.fixed_bit_clear then byte else bit_or byte 0x40

unfoldable pub put_token : PktHd → Outcome (List ℕ)
put_token hd = elim hd.type [
  | initial ↦ (do n ← put_uvarint (length hd.token); ok (n ++ hd.token))
  | _ ↦ ok []
]

unfoldable pub put_length : PktHd → Outcome (List ℕ)
put_length hd =
    if has_length hd.type
    then (do
      n ← put_uvarint30 (hd.len % 2 ^ 32)
      pkt_num ← put_pkt_num hd.pkt_num hd.pkt_numlen
      ok (n ++ pkt_num))
    else ok []

unfoldable pub encode_hd_long : ℕ → PktHd → Outcome (List ℕ)
unfolding token_len versioned_type long_first put_token put_length
encode_hd_long outlen hd = do
  let len = min_long_headerlen + length hd.dcid + length hd.scid - 2
  let len' = if has_length hd.type then len + (pkt_lengthlen + hd.pkt_numlen) else len
  n ← token_len hd
  guard (leb (len' + n) outlen) nobuf
  type ← versioned_type hd.version hd.type
  token ← put_token hd
  end ← put_length hd
  let cids =
      (length hd.dcid % 256) ∷ (hd.dcid ++ ((length hd.scid % 256) ∷ (hd.scid ++ (token ++ end))))
  let bytes = long_first type hd ∷ (put_uint32be hd.version ++ cids)
  assert (length bytes == len' + n)
  ok bytes

unfoldable pub short_first : PktHd → ℕ
short_first hd =
    let byte = (hd.pkt_numlen + 2 ^ 64 - 1) % 256 in
    let fixed = if hd.flags.fixed_bit_clear then byte else bit_or byte 0x40 in
    if hd.flags.key_phase then bit_or fixed 0x04 else fixed

unfoldable pub encode_hd_short : ℕ → PktHd → Outcome (List ℕ)
unfolding short_first
encode_hd_short outlen hd = do
  let len = 1 + length hd.dcid + hd.pkt_numlen
  guard (leb len outlen) nobuf
  pkt_num ← put_pkt_num hd.pkt_num hd.pkt_numlen
  let bytes = short_first hd ∷ (hd.dcid ++ pkt_num)
  assert (length bytes == len)
  ok bytes
