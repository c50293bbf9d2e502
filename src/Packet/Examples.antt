-- ===== src/Packet/Examples.antt =====
-- The packet number of RFC 9000, A.3, an ACK frame with one gap, and headers.
use zngtcp.Base.{
  ◌/◌, ◌%◌, ◌==◌, if◌then◌else◌, ℕ, ◌≡◌, refl, ◌↔◌, List, [], ◌∷◌, ◌++◌, none, ok, ◌>>=◌, arith,
  drop, length, leb, err, nobuf, true, false, ◌+◌, ◌⊎◌, ◌^◌,
}
use zngtcp.Conv.{put_pkt_num, get_pkt_num, put_uvarint, put_uvarint30, put_uvarintlen, put_uint32be}
use zngtcp.Frame.{Ack}
use zngtcp.Packet.PacketNumber.{adjust_pkt_num, adjust-put_pkt_num}
use zngtcp.Packet.VersionCid.{decode_version_cid, is_supported_version}
use zngtcp.Packet.Header.{PktHd, initial, retry}
use zngtcp.Packet.Header.Encode.{encode_hd_long, encode_hd_short}
use zngtcp.Packet.Header.Decode.{decode_hd_long, decode_hd_short}
use zngtcp.Packet.Header.Layout.{read_hd_long, header_result}
use zngtcp.Packet.Header.Decoded.{decode_hd_long-layout}
use zngtcp.Packet.Header.RoundTrip.{decode_hd_long-encode_hd_long}
use zngtcp.Packet.Header.RoundTrip.Reads.{Sendable, received}
use zngtcp.Packet.Header.Short.{received_short, decode_hd_short-encode_hd_short}
use zngtcp.Packet.VersionCid.Layout.{read_long, read_short, decode_version_cid-layout}
use zngtcp.Packet.VersionNegotiation.{
  write_version_negotiation, decode_version_negotiation, decode-write_version_negotiation,
}
use zngtcp.Packet.AckRanges.{validate_ack, Interval, Acknowledges, From, validate_ack-Acknowledges}

abbrev largest_received : ℕ
largest_received = 0xa82f30ea

put_pkt_num-0xa82f9b32 : put_pkt_num 0xa82f9b32 2 ≡ ok (0x9b ∷ 0x32 ∷ [])
unfolding put_pkt_num
put_pkt_num-0xa82f9b32 = refl

adjust-put_pkt_num_example :
    (do d ← get_pkt_num ((0x9b ∷ 0x32 ∷ []) ++ (0x01 ∷ [])) 2; adjust_pkt_num largest_received d 2)
    ≡ ok 0xa82f9b32
adjust-put_pkt_num_example =
    adjust-put_pkt_num largest_received 0xa82f9b32 2 (0x01 ∷ []) (omega arith) (omega arith)
      (omega arith, omega arith, omega arith) put_pkt_num-0xa82f9b32

-- 90 to 100 and 80 to 85.
abbrev one_gap : Ack
one_gap = record {
  largest_ack = 100;
  ack_delay = 0;
  ack_delay_unscaled = 0;
  ecn = none;
  first_ack_range = 10;
  ranges = record { gap = 3; len = 5 } ∷ [];
}

validate_ack-Acknowledges_example :
    (validate_ack one_gap 7 ≡ ok tt) ↔ ((is : List Interval) × Acknowledges one_gap is × From 7 is)
validate_ack-Acknowledges_example = validate_ack-Acknowledges one_gap 7

-- A short header with a connection ID of two bytes.
decode_version_cid-layout_example : decode_version_cid (0x41 ∷ 0x0a ∷ 0x0b ∷ 0x07 ∷ []) 2 ≡ (
    if 0x41 / 128 % 2 == 1
    then read_long (0x0a ∷ 0x0b ∷ 0x07 ∷ [])
    else read_short 2 (0x0a ∷ 0x0b ∷ 0x07 ∷ []))
decode_version_cid-layout_example =
    decode_version_cid-layout 0x41 (0x0a ∷ 0x0b ∷ 0x07 ∷ []) 2 (omega arith)

-- Version 1 and version 2 are offered.
decode-write_version_negotiation_example :
    (bytes : List ℕ) × (write_version_negotiation 1200 77
        (5 ∷ 6 ∷ [])
        (7 ∷ [])
        (1 ∷ 0x6b3343cf ∷ [])
      ≡ ok bytes)
    × (decode_version_cid bytes 8
        ≡ ok (record { version = 0; dcid = 5 ∷ 6 ∷ []; scid = 7 ∷ [] }, false))
    × (decode_version_negotiation (drop 10 bytes) ≡ ok (1 ∷ 0x6b3343cf ∷ []))
decode-write_version_negotiation_example =
    decode-write_version_negotiation 1200 77 8 (5 ∷ 6 ∷ []) (7 ∷ []) (1 ∷ 0x6b3343cf ∷ [])
      (omega arith) (omega arith) (omega arith) (omega arith) (omega arith, (omega arith, tt))
      (omega arith)

-- An Initial packet of version 1 with a token of two bytes
abbrev first_hd : PktHd
first_hd = record {
  flags = record { long_form = true; fixed_bit_clear = false; key_phase = false };
  type = initial;
  dcid = 5 ∷ 6 ∷ 7 ∷ [];
  scid = 8 ∷ [];
  pkt_num = 258;
  token = 1 ∷ 2 ∷ [];
  pkt_numlen = 2;
  len = 1200;
  version = 1;
}

first_hd-Sendable : Sendable first_hd
unfolding is_supported_version
first_hd-Sendable = record {
  supported = refl;
  long = refl;
  cids = omega arith;
  dcid_bytes = omega arith;
  scid_bytes = omega arith;
  token = omega arith;
  tokenlen = omega arith;
  len = omega arith;
  pkt_numlen = omega arith;
}

abbrev first_bytes : List ℕ
first_bytes =
    0xc1 ∷ 0 ∷ 0 ∷ 0 ∷ 1 ∷ 3 ∷ 5 ∷ 6 ∷ 7 ∷ 1 ∷ 8 ∷ 2 ∷ 1 ∷ 2 ∷ 0x80 ∷ 0 ∷ 4 ∷ 0xb0 ∷ 1 ∷ 2 ∷ []

encode_hd_long-first_hd : encode_hd_long 1200 first_hd ≡ ok first_bytes
unfolding encode_hd_long put_uvarint put_uvarint30 put_uvarintlen put_pkt_num put_uint32be
encode_hd_long-first_hd = refl

decode_hd_long-layout_example :
    decode_hd_long first_bytes ≡ header_result first_bytes (read_hd_long first_bytes)
decode_hd_long-layout_example = decode_hd_long-layout first_bytes (omega arith)

decode_hd_long-encode_hd_long_example :
    (bytes : List ℕ) × (n : ℕ) × (encode_hd_long 1200 first_hd
      ≡ (if leb (length bytes) 1200 then ok bytes else err nobuf))
    × (decode_hd_long (bytes ++ (9 ∷ [])) ≡ ok (received first_hd, n))
    × (length bytes ≡ n + (if true then 2 else 0))
    × ((initial ≡ retry) ⊎ (get_pkt_num (drop n (bytes ++ (9 ∷ []))) 2 ≡ ok (258 % 256 ^ 2)))
decode_hd_long-encode_hd_long_example =
    decode_hd_long-encode_hd_long 1200 first_hd (9 ∷ []) first_hd-Sendable (omega arith)

decode_hd_short-encode_hd_short_example :
    (first : ℕ) × (p : List ℕ) × (encode_hd_short 1200 first_hd
      ≡ (if leb (1 + length p) 1200 then ok (first ∷ p) else err nobuf))
    × (length p ≡ 3 + 2)
    × ((first / 4 % 2 == 1) ≡ false)
    × (first % 4 + 1 ≡ 2)
    × (decode_hd_short (first ∷ (p ++ (9 ∷ []))) 3 ≡ ok (received_short first_hd, 1 + 3))
    × (get_pkt_num (drop 3 (p ++ (9 ∷ []))) 2 ≡ ok (258 % 256 ^ 2))
decode_hd_short-encode_hd_short_example =
    decode_hd_short-encode_hd_short 1200 first_hd (9 ∷ []) (omega arith) (omega arith) (omega arith)
