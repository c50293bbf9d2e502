-- ===== src/Packet/Header/Short.antt =====
-- `ngtcp2_pkt_decode_hd_short` of lib/ngtcp2_pkt.c behind `ngtcp2_pkt_encode_hd_short`.
use zngtcp.Base.{
  ℕ, zero, suc, ◌+◌, ◌-◌, ◌/◌, ◌%◌, ◌^◌, ◌≤◌, ◌<◌, ◌≡◌, refl, ap, ◌∙◌, List, [], ◌∷◌, ◌++◌, false,
  not, ok, err, nobuf, leb, ◌==◌, length, length-append, arith, if◌then◌else◌, append_assoc, bit_or,
  drop, drop-length_append, take-length_append,
}
use zngtcp.Conv.{get_pkt_num}
use zngtcp.Conv.Write.{get_pkt_num-put_pkt_num}
use zngtcp.Packet.Header.{PktHd, PktFlags, one_rtt}
use zngtcp.Packet.Header.Encode.{short_first, encode_hd_short}
use zngtcp.Packet.Header.Decode.{decode_hd_short}

-- What arrives: the key phase and the packet number are still protected, and not read.
abbrev pub received_short : PktHd → PktHd
received_short hd = record {
  flags = record {
    long_form = false;
    fixed_bit_clear = hd.flags.fixed_bit_clear;
    key_phase = false;
  };
  type = one_rtt;
  dcid = hd.dcid;
  scid = [];
  pkt_num = 0;
  token = [];
  pkt_numlen = 0;
  len = 0;
  version = 0;
}

record ShortBits (first numlen : ℕ) (flags : PktFlags) : Type 0 where
  form : first / 128 % 2 ≡ 0
  fixed : not (first / 64 % 2 == 1) ≡ flags.fixed_bit_clear
  key_phase : (first / 4 % 2 == 1) ≡ flags.key_phase
  pkt_numlen : first % 4 + 1 ≡ numlen

flag_bits :
    (low : ℕ)
    → low < 4
    → (bit_or low 0x40 ≡ low + 64)
      × (bit_or low 0x04 ≡ low + 4)
      × (bit_or (bit_or low 0x40) 0x04 ≡ low + 68)
flag_bits zero h = (refl, refl, refl)
flag_bits (suc zero) h = (refl, refl, refl)
flag_bits (suc (suc zero)) h = (refl, refl, refl)
flag_bits (suc (suc (suc zero))) h = (refl, refl, refl)
flag_bits (suc (suc (suc (suc n)))) h = absurd (omega (arith, h))

short-bits :
    (hd : PktHd)
    → 1 ≤ hd.pkt_numlen
    → hd.pkt_numlen ≤ 4
    → ShortBits (short_first hd) hd.pkt_numlen hd.flags
unfolding short_first
short-bits hd lo hi =
    let low : (hd.pkt_numlen + 2 ^ 64 - 1) % 256 ≡ hd.pkt_numlen - 1 = omega (arith, lo, hi) in
    let bits = flag_bits (hd.pkt_numlen - 1) (omega (arith, lo, hi)) in
    record {
      form = ground (arith, low, bits, lo, hi);
      fixed = ground (arith, low, bits, lo, hi);
      key_phase = ground (arith, low, bits, lo, hi);
      pkt_numlen = ground (arith, low, bits, lo, hi);
    }

-- A short header with a connection ID of 20 bytes at most and a packet number of 1 to 4 bytes is
-- written in as many bytes as the function says beforehand, if there is room, and is refused
-- otherwise. From these bytes, whatever follows, `ngtcp2_pkt_decode_hd_short`, told the length of
-- the connection ID, reads it and the fixed bit, and the packet number that was written stands
-- where the header ends for it. The first byte has the key phase and the length of the packet
-- number for those who remove the protection.
pub decode_hd_short-encode_hd_short :
    (outlen : ℕ) (hd : PktHd) (r : List ℕ)
    → length hd.dcid ≤ 20
    → 1 ≤ hd.pkt_numlen
    → hd.pkt_numlen ≤ 4
    → (first : ℕ) × (p : List ℕ) × (encode_hd_short outlen hd
        ≡ (if leb (1 + length p) outlen then ok (first ∷ p) else err nobuf))
      × (length p ≡ length hd.dcid + hd.pkt_numlen)
      × ((first / 4 % 2 == 1) ≡ hd.flags.key_phase)
      × (first % 4 + 1 ≡ hd.pkt_numlen)
      × (decode_hd_short (first ∷ (p ++ r)) (length hd.dcid)
          ≡ ok (received_short hd, 1 + length hd.dcid))
      × (get_pkt_num (drop (length hd.dcid) (p ++ r)) hd.pkt_numlen
          ≡ ok (hd.pkt_num % 256 ^ hd.pkt_numlen))
unfolding encode_hd_short decode_hd_short
decode_hd_short-encode_hd_short outlen hd r short lo hi =
    let bits = short-bits hd lo hi in
    let (num, written, size, read) = get_pkt_num-put_pkt_num hd.pkt_num hd.pkt_numlen r lo hi in
    let whole = length-append hd.dcid num in
    let spine = append_assoc hd.dcid num r in
    let dcid = take-length_append hd.dcid (num ++ r) in
    (
      short_first hd,
      hd.dcid ++ num,
      ground (arith, written, size, whole),
      omega (arith, whole, size),
      bits.key_phase,
      bits.pkt_numlen,
      ground (arith, bits.form, bits.fixed, spine, dcid, length-append hd.dcid (num ++ r), short),
      ap (λ p. get_pkt_num (drop (length hd.dcid) p) hd.pkt_numlen) spine
          ∙ ap (λ p. get_pkt_num p hd.pkt_numlen) (drop-length_append hd.dcid (num ++ r))
          ∙ read,
    )
