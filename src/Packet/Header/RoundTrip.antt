-- ===== src/Packet/Header/RoundTrip.antt =====
-- `ngtcp2_pkt_decode_hd_long` of lib/ngtcp2_pkt.c behind `ngtcp2_pkt_encode_hd_long`.
pub mod Reads
use zngtcp.Base.{
  ℕ, zero, suc, ◌+◌, ◌*◌, ◌/◌, ◌%◌, ◌^◌, ◌≤◌, ◌<◌, ◌≡◌, refl, ap, inl, inr, ◌∙◌, ◌⊎◌, List, [], ◌∷◌,
  ◌++◌, some, true, false, Bool-cases, ok, err, nobuf, leb, length, length-append, All, arith,
  if◌then◌else◌, append_assoc, drop, drop-length_append,
}
use zngtcp.Conv.{IsByte, varint_limit, put_uint32be, put_pkt_num, get_pkt_num}
use zngtcp.Conv.Read.{read_varint}
use zngtcp.Conv.Write.{
  encoding, encoding-IsByte, read_varint-encoding, All-append, get_pkt_num-put_pkt_num,
}
use zngtcp.Packet.VersionCid.{is_supported_version}
use zngtcp.Packet.VersionNegotiation.{read_bytes-append}
use zngtcp.Frame.Layout.{read_block}
use zngtcp.Packet.Header.{
  PktType, version_negotiation, initial, zero_rtt, handshake, retry, one_rtt, PktHd,
}
use zngtcp.Packet.Header.Encode.{has_length, long_first, encode_hd_long}
use zngtcp.Packet.Header.Decode.{decode_hd_long}
use zngtcp.Packet.Header.Layout.{
  read_cid20, read_tail, read_type, read_fields, read_hd_long, long_hd, header_result,
}
use zngtcp.Packet.Header.Decoded.{decode_hd_long-layout}
use zngtcp.Packet.Header.Written.{
  is_long, Numbered, FirstBits, first-bits, type-numbered, sent_token, token_bytes, length_bytes,
  end_bytes, wire, encode-wire,
}
use zngtcp.Packet.Header.RoundTrip.Reads.{
  left_over, wire-split, received, Sendable, supported-small, read_hd_long-wire,
}

put_pkt_num-IsByte : (n len : ℕ) (bytes : List ℕ) → put_pkt_num n len ≡ ok bytes → All IsByte bytes
unfolding put_pkt_num
put_pkt_num-IsByte n zero bytes h = cc
put_pkt_num-IsByte n (suc zero) bytes h = ground (arith, h)
put_pkt_num-IsByte n (suc (suc zero)) bytes h = ground (arith, h)
put_pkt_num-IsByte n (suc (suc (suc zero))) bytes h = ground (arith, h)
put_pkt_num-IsByte n (suc (suc (suc (suc zero)))) bytes h = ground (arith, h)
put_pkt_num-IsByte n (suc (suc (suc (suc (suc k))))) bytes h = cc

wire-IsByte :
    (type : ℕ) (hd : PktHd) (pkt_num : List ℕ)
    → Sendable hd
    → long_first type hd < 256
    → All IsByte pkt_num
    → All IsByte (wire type hd pkt_num)
unfolding put_uint32be
wire-IsByte type hd pkt_num h first num =
    let both =
      All-append (encoding (length hd.token)) hd.token
        (encoding-IsByte (length hd.token) h.tokenlen) h.token in
    let e : All IsByte (end_bytes hd pkt_num) = ground (arith, num, h.len) in
    let t : All IsByte (token_bytes hd) = ground (arith, both) in
    let behind = All-append (token_bytes hd) (end_bytes hd pkt_num) t e in
    let two = h.cids in
    let scid = All-append hd.scid (token_bytes hd ++ end_bytes hd pkt_num) h.scid_bytes behind in
    let all =
      All-append hd.dcid (length hd.scid ∷ (hd.scid ++ (token_bytes hd ++ end_bytes hd pkt_num)))
        h.dcid_bytes (omega (arith, two), scid) in
    (first, (omega arith, (omega arith, (omega arith, (omega arith, (omega (arith, two), all))))))

left_over-length :
    (hd : PktHd) (pkt_num r : List ℕ)
    → length pkt_num ≡ hd.pkt_numlen
    → length (left_over hd pkt_num r) ≡ (if has_length hd.type then hd.pkt_numlen else 0) + length r
left_over-length hd pkt_num r size = ground (arith, size, length-append pkt_num r)

pub decode_hd_long-wire :
    (hd : PktHd) (number : Numbered hd.version hd.type) (pkt_num r : List ℕ)
    → Sendable hd
    → All IsByte pkt_num
    → All IsByte r
    → decode_hd_long (wire number.n hd pkt_num ++ r)
      ≡ ok (received hd, length (wire number.n hd []))
decode_hd_long-wire hd number num r h hn hr =
    let (lo, hi) = h.pkt_numlen in
    let bits = first-bits number.n hd number.small lo hi in
    let bytes = wire number.n hd num in
    let front = wire number.n hd [] in
    let split = wire-split number.n hd num r in
    let type : read_type (long_first number.n hd) hd.version ≡ some hd.type =
      unfold read_type in
      ground (
        arith,
        supported-small hd.version h.supported,
        number.read (long_first number.n hd) bits.number,
      ) in
    let lengths = ap length split in
    let whole = length-append bytes r in
    let parts = length-append front (left_over hd num r) in
    let all = All-append bytes r (wire-IsByte number.n hd num h bits.small hn) hr in
    let layout = read_hd_long-wire number.n hd num r h bits type in
    decode_hd_long-layout (bytes ++ r) all
    ∙ ap (header_result (bytes ++ r)) layout
    ∙ ap (λ n. ok (received hd, n)) (omega (arith, lengths, whole, parts))

only_retry : (type : PktType) → is_long type ≡ true → has_length type ≡ false → type ≡ retry
only_retry retry long without = refl
only_retry initial long without = cc
only_retry zero_rtt long without = cc
only_retry handshake long without = cc
only_retry version_negotiation long without = cc
only_retry one_rtt long without = cc

-- A header of a supported version and a type that has a number, with connection IDs of 20 bytes at
-- most, a Length below 2 ^ 30 and a packet number of 1 to 4 bytes, is written in as many bytes as
-- the function says beforehand, if there is room, and is refused otherwise. From these bytes,
-- whatever bytes follow, `ngtcp2_pkt_decode_hd_long` reads the same type, version, connection IDs,
-- token and Length, and the packet number that was written stands where the header ends for it,
-- unless the packet is a Retry packet, which has none.
pub decode_hd_long-encode_hd_long :
    (outlen : ℕ) (hd : PktHd) (r : List ℕ)
    → Sendable hd
    → All IsByte r
    → (bytes : List ℕ) × (n : ℕ) × (encode_hd_long outlen hd
        ≡ (if leb (length bytes) outlen then ok bytes else err nobuf))
      × (decode_hd_long (bytes ++ r) ≡ ok (received hd, n))
      × (length bytes ≡ n + (if has_length hd.type then hd.pkt_numlen else 0))
      × ((hd.type ≡ retry)
          ⊎ (get_pkt_num (drop n (bytes ++ r)) hd.pkt_numlen
              ≡ ok (hd.pkt_num % 256 ^ hd.pkt_numlen)))
decode_hd_long-encode_hd_long outlen hd r h hr =
    let number = type-numbered hd.version hd.type h.supported h.long in
    let (lo, hi) = h.pkt_numlen in
    let (num, written, size, read) = get_pkt_num-put_pkt_num hd.pkt_num hd.pkt_numlen r lo hi in
    let bytes = wire number.n hd num in
    let front = wire number.n hd [] in
    let split = wire-split number.n hd num r in
    let lengths = ap length split in
    let whole = length-append bytes r in
    let parts = length-append front (left_over hd num r) in
    (
      bytes,
      length front,
      encode-wire outlen hd number.n num h.cids h.tokenlen h.len number.written written size,
      decode_hd_long-wire hd number num r h
          (put_pkt_num-IsByte hd.pkt_num hd.pkt_numlen num written) hr,
      omega (arith, lengths, whole, parts, left_over-length hd num r size),
      elim (Bool-cases (has_length hd.type)) [
        | inr none' ↦ inl (only_retry hd.type h.long none')
        | inl has ↦
            let at : drop (length front) (bytes ++ r) ≡ num ++ r =
              ap (drop (length front)) split
              ∙ drop-length_append front (left_over hd num r)
              ∙ ground (arith, has) in
            inr (ap (λ p. get_pkt_num p hd.pkt_numlen) at ∙ read)
      ],
    )
