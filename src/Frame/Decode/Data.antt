-- ===== src/Frame/Decode/Data.antt =====
-- The decoders of the frames in lib/ngtcp2_pkt.c that carry data: STREAM, CRYPTO and DATAGRAM.
use zngtcp.Base.{
  ℕ, ◌+◌, ◌-◌, ◌*◌, ◌/◌, ◌%◌, List, [], ◌∷◌, Outcome, ok, fault, ◌>>=◌, ◌>>◌, guard, assert,
  frame_encoding, length, leb, ltb, ◌==◌, Bool, false, if◌then◌else◌, none,
}
use zngtcp.Conv.{peek, get_uvarint}
use zngtcp.Frame.{Frame}
use zngtcp.Frame.FrameType
use zngtcp.Frame.Cursor.{advance, bytes_at, require, measure, skip, finish}

-- NGTCP2_STREAM_FIN_BIT, NGTCP2_STREAM_LEN_BIT and NGTCP2_STREAM_OFF_BIT of a type byte
abbrev pub fin_bit : ℕ → Bool
fin_bit type = type % 2 == 1

abbrev pub len_bit : ℕ → Bool
len_bit type = type / 2 % 2 == 1

abbrev pub off_bit : ℕ → Bool
off_bit type = type / 4 % 2 == 1

-- A single vector over the data, or none if there is no data.
abbrev pub one_vec : List ℕ → List (List ℕ)
one_vec [] = []
one_vec (b ∷ bs) = (b ∷ bs) ∷ []

-- `++len; if (payloadlen < len) return …;` and the length checks of a field that may be left out
unfoldable pub skip_offset : ℕ → ℕ → ℕ → List ℕ → Outcome (ℕ × List ℕ)
unfolding require skip
skip_offset type payloadlen len p =
    if off_bit type
    then (do require payloadlen (len + 1); skip payloadlen (len + 1) p)
    else ok (len, p)

-- The result is `ndatalen`, `datalen` and `len`; with no length field `datalen` is set later.
unfoldable pub measure_data : ℕ → ℕ → ℕ → List ℕ → Outcome (ℕ × ℕ × ℕ)
unfolding require measure
measure_data type payloadlen len p =
    if len_bit type
    then (do
      require payloadlen (len + 1)
      (ndatalen, len') ← measure payloadlen (len + 1) p
      (vi, _) ← get_uvarint p
      guard (leb vi (payloadlen - len')) frame_encoding
      ok (ndatalen, vi, len' + vi))
    else ok (0, 0, payloadlen)

unfoldable pub get_offset : ℕ → List ℕ → Outcome (ℕ × List ℕ)
get_offset type p = if off_bit type then get_uvarint p else ok (0, p)

unfoldable pub decode_stream_frame : List ℕ → Outcome (Frame × ℕ)
unfolding advance bytes_at require skip finish peek skip_offset measure_data get_offset
decode_stream_frame payload = do
  require (length payload) 2
  type ← peek payload
  start ← advance 1 payload
  (len1, p1) ← skip (length payload) 2 start
  (len2, p2) ← skip_offset type (length payload) len1 p1
  (ndatalen, vi, len) ← measure_data type (length payload) len2 p2
  (stream_id, q1) ← get_uvarint start
  (offset, q2) ← get_offset type q1
  q3 ← advance ndatalen q2
  let datalen = if len_bit type then vi else length q2
  bytes ← bytes_at datalen q3
  end ← advance datalen q3
  finish payload end len (
      Frame.stream (record {
        flags = type / 16 * 16 + type % 8;
        fin = fin_bit type;
        stream_id = stream_id;
        offset = offset;
        payload = one_vec bytes;
        txbuf = none;
      }))

unfoldable pub decode_crypto_frame : List ℕ → Outcome (Frame × ℕ)
unfolding advance bytes_at require skip measure finish
decode_crypto_frame payload = do
  require (length payload) 3
  start ← advance 1 payload
  (len1, p1) ← skip (length payload) 3 start
  (ndatalen, len2) ← measure (length payload) len1 p1
  (vi, _) ← get_uvarint p1
  guard (leb vi (length payload - len2)) frame_encoding
  let len = len2 + vi
  (offset, q1) ← get_uvarint start
  q2 ← advance ndatalen q1
  bytes ← bytes_at vi q2
  end ← advance vi q2
  finish payload end len (
      Frame.crypto (record {
        flags = 0;
        fin = false;
        stream_id = 0;
        offset = offset;
        payload = one_vec bytes;
        txbuf = none;
      }))

-- The `switch (type)`: `datalen`, `len` and the start of the data
unfoldable pub measure_datagram : ℕ → ℕ → List ℕ → Outcome (ℕ × ℕ × List ℕ)
unfolding require measure
measure_datagram type payloadlen p =
    if type == FrameType.datagram
    then ok (payloadlen - 1, payloadlen, p)
    else if type == FrameType.datagram_len
    then (do
      require payloadlen 2
      (_, len) ← measure payloadlen 2 p
      (vi, q) ← get_uvarint p
      guard (leb vi (payloadlen - len)) frame_encoding
      ok (vi, len + vi, q))
    else fault

unfoldable pub decode_datagram_frame : List ℕ → Outcome (Frame × ℕ)
unfolding advance bytes_at finish peek measure_datagram
decode_datagram_frame payload = do
  assert (ltb 0 (length payload))
  type ← peek payload
  start ← advance 1 payload
  (datalen, len, p) ← measure_datagram type (length payload) start
  bytes ← bytes_at datalen p
  end ← advance datalen p
  finish payload end len (Frame.datagram (record { type = type; payload = one_vec bytes }))
