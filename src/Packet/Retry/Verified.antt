-- ===== src/Packet/Retry/Verified.antt =====
-- A Retry packet that `ngtcp2_pkt_write_retry` of lib/ngtcp2_pkt.c wrote, at the client.
pub mod Tagged
use zngtcp.Base.{
  ℕ, ◌+◌, ◌-◌, ◌*◌, ◌/◌, ◌%◌, ◌≤◌, ◌<◌, ◌≡◌, refl, ap, sym, ◌∙◌, ◌↔◌, List, [], ◌∷◌, ◌++◌, some,
  true, false, ◌==◌, ok, err, nobuf, leb, length, take, drop, All, arith, bit_and, bit_or,
  all_below-lt, length-append, take-length_append, drop-length_append, append_assoc, append-nil,
  if◌then◌else◌,
}
use zngtcp.Conv.{IsByte, put_uint32be, put_pkt_num}
use zngtcp.Conv.Write.{All-append}
use zngtcp.Frame.Cursor.{bytes_at, advance}
use zngtcp.Packet.VersionCid.{is_supported_version}
use zngtcp.Packet.Header.{PktHd, retry}
use zngtcp.Packet.Header.Encode.{long_first, encode_hd_long}
use zngtcp.Packet.Header.Decode.{decode_hd_long}
use zngtcp.Packet.Header.Written.{first-bits, type-numbered, Numbered, wire, encode-wire}
use zngtcp.Packet.Header.RoundTrip.{decode_hd_long-wire}
use zngtcp.Packet.Header.RoundTrip.Reads.{Sendable, received}
use zngtcp.Packet.Retry.{
  PktRetry, Encrypt, same_bytes, nonce, with_ops, retry_tag, pkt_hd_init, set_unused,
  encode_pseudo_retry, write_retry, decode_retry, verify_retry_tag,
}
use zngtcp.Packet.Retry.Verified.Tagged.{
  MakesTags, CanRetry, retry_hd, set_unused_clear, decode_retry-tagged, retry_tag-made,
  verify_retry_tag-made,
}

module _ (encrypt : Encrypt) (version : ℕ) (dcid scid odcid token : List ℕ)
    (makes : MakesTags encrypt) (can : CanRetry version dcid scid odcid token) where
  abbrev hd : PktHd
  hd = retry_hd version dcid scid

  hd-Sendable : Sendable hd
  hd-Sendable = record {
    supported = can.supported;
    long = refl;
    cids = can.cids;
    dcid_bytes = can.dcid_bytes;
    scid_bytes = can.scid_bytes;
    token = tt;
    tokenlen = omega arith;
    len = omega arith;
    pkt_numlen = (omega arith, omega arith);
  }

  abbrev number : Numbered version retry
  number = type-numbered version retry can.supported refl

  abbrev header : List ℕ
  header = wire number.n hd []

  length-header : length header ≡ 7 + length dcid + length scid
  unfolding put_uint32be
  length-header =
      let nil : List ℕ = [] in
      omega (arith, length-append dcid (length scid ∷ (scid ++ nil)), length-append scid nil)

  header-written : (destlen : ℕ) → length header ≤ destlen → encode_hd_long destlen hd ≡ ok header
  unfolding put_pkt_num
  header-written destlen room =
      let written =
        encode-wire destlen hd number.n (0 ∷ []) can.cids (omega arith) (omega arith) number.written
          refl refl in
      ground (arith, written, room)

  header-set : set_unused 0 header ≡ ok header
  unfolding put_uint32be
  header-set =
      let bits = first-bits number.n hd number.small (omega arith) (omega arith) in
      set_unused_clear (long_first number.n hd) _ bits.low bits.small

  abbrev pseudo : List ℕ
  pseudo = length odcid ∷ (odcid ++ (header ++ token))

  pseudo-written : encode_pseudo_retry 1500 hd 0 odcid token ≡ ok pseudo
  unfolding encode_pseudo_retry
  pseudo-written =
      let two = can.odcidlen in
      let d : length odcid % 256 ≡ length odcid = omega (arith, two) in
      let room =
        header-written (1500 - (1 + length odcid)) (omega (arith, length-header, can.fits)) in
      ground (arith, d, two, room, header-set, length-header, can.fits)

  abbrev made : List ℕ
  made = makes.tag (nonce version) pseudo

  abbrev pkt : List ℕ
  pkt = (header ++ token) ++ made

  pkt-written :
      (room : ℕ)
      → write_retry (some encrypt) room version dcid scid odcid token
        ≡ (if leb (length pkt) room then ok pkt else err nobuf)
  unfolding write_retry with_ops pkt_hd_init advance
  pkt-written room =
      let front = length-append odcid (header ++ token) in
      let behind = length-append (header ++ token) made in
      let dropped = drop-length_append odcid (header ++ token) in
      ground (
        arith,
        can.some_token,
        can.fresh,
        can.odcidlen,
        pseudo-written,
        retry_tag-made encrypt makes version pseudo,
        front,
        behind,
        dropped,
        makes.taglen (nonce version) pseudo,
      )

  -- A server writes a Retry packet of a supported version, with a token that is not empty and fits,
  -- connection IDs of 20 bytes at most, and a new one that is not the 8 to 20 bytes that the client
  -- chose at first. `ngtcp2_pkt_write_retry` refuses it for want of room only. The client reads the
  -- packet: the header has the connection IDs, and behind it stand the token and a tag that
  -- `ngtcp2_pkt_verify_retry_tag` accepts with the connection ID that the client chose. This holds
  -- for every cipher that makes tags of 16 bytes, since both sides give it the same bytes.
  pub verify_retry_tag-write_retry :
      (room : ℕ) (dest : PktRetry)
      → dest.odcid ≡ odcid
      → (pkt : List ℕ) × (ret : PktRetry) × (write_retry
            (some encrypt)
            room
            version
            dcid
            scid
            odcid
            token
          ≡ (if leb (length pkt) room then ok pkt else err nobuf))
        × (decode_hd_long pkt
            ≡ ok (received (retry_hd version dcid scid), 7 + length dcid + length scid))
        × (decode_retry dest (drop (7 + length dcid + length scid) pkt) ≡ ok ret)
        × (ret.token ≡ token)
        × (verify_retry_tag (some encrypt) version ret pkt ≡ ok tt)
  verify_retry_tag-write_retry room dest same =
      let ret : PktRetry = record { odcid = dest.odcid; token = token; tag = made } in
      let taglen = makes.taglen (nonce version) pseudo in
      let bytes = All-append token made can.token_bytes (makes.bytes (nonce version) pseudo) in
      let spine = append_assoc header token made in
      let long = ap length same in
      (
        pkt,
        ret,
        pkt-written room,
        ap decode_hd_long spine
            ∙ decode_hd_long-wire hd number (0 ∷ []) (token ++ made) hd-Sendable (omega arith) bytes
            ∙ ap (λ n. ok (received hd, n)) length-header,
        ap (decode_retry dest) (
              ap (λ n. drop n pkt) (sym length-header)
              ∙ ap (drop (length header)) spine
              ∙ drop-length_append header (token ++ made))
            ∙ decode_retry-tagged dest token made taglen can.some_token,
        refl,
        (verify_retry_tag-made encrypt makes version ret (header ++ token) made taglen
              (omega (arith, long, can.odcidlen))
              (omega (arith, long, length-append header token, length-header, can.fits))).1
            (ap (λ o. makes.tag (nonce version) (length o ∷ (o ++ (header ++ token)))) (sym same)),
      )
