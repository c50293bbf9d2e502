-- ===== src/Frame/RoundTrip/Fields.antt =====
-- The layouts of frames with optional fields, and of ACK, read the bytes of a frame.
use zngtcp.Base.{
  ℕ, ◌+◌, ◌*◌, ◌%◌, ◌/◌, ◌≡◌, refl, inl, inr, List, [], ◌∷◌, ◌++◌, Option, none, some, length,
  append_assoc, append-nil, All, Bool-cases, ◌==◌, arith, if◌then◌else◌,
}
use zngtcp.Conv.Write.{encoding, read_varint-encoding}
use zngtcp.Frame.{Frame, Stream, Ack, AckRange, Ecn, Datagram, ConnectionClose}
use zngtcp.Frame.FrameType
use zngtcp.Frame.Layout.{
  read_if, read_connection_close, read_tail, read_stream, read_datagram, read_ranges, read_ecn,
  read_ack,
}
use zngtcp.Frame.Wire.{
  concat, data_of, flags_of, offset_wire, frame_type_wire, ranges_wire, ecn_wire, received,
}
use zngtcp.Frame.Sendable.{IsVarint, IsRange, IsEcn, IsDatagram}
use zngtcp.Frame.RoundTrip.Readable.{block-reads}

frame_type-reads :
    (fr : ConnectionClose) (r : List ℕ)
    → IsVarint fr.frame_type
    → read_if (fr.type == FrameType.connection_close) (frame_type_wire fr ++ r)
      ≡ some (if fr.type == FrameType.connection_close then fr.frame_type else 0, r)
unfolding read_if frame_type_wire
frame_type-reads fr r h = ground (arith, read_varint-encoding fr.frame_type r h)

pub connection_close-reads :
    (fr : ConnectionClose) (r : List ℕ)
    → IsVarint fr.error_code
    → IsVarint fr.frame_type
    → IsVarint (length fr.reason)
    → read_connection_close fr.type (
        (encoding fr.error_code
          ++ (frame_type_wire fr ++ (encoding (length fr.reason) ++ fr.reason)))
        ++ r)
      ≡ some (received (Frame.connection_close fr), r)
unfolding read_connection_close received
connection_close-reads fr r h1 h2 h3 =
    let end = encoding (length fr.reason) ++ fr.reason in
    rw (
      append_assoc (encoding fr.error_code) (frame_type_wire fr ++ end) r,
      append_assoc (frame_type_wire fr) end r,
      append_assoc (encoding (length fr.reason)) fr.reason r,
      read_varint-encoding fr.error_code
          (frame_type_wire fr ++ (encoding (length fr.reason) ++ (fr.reason ++ r))) h1,
      frame_type-reads fr (encoding (length fr.reason) ++ (fr.reason ++ r)) h2,
      block-reads fr.reason r h3,
    )

pub datagram-reads :
    (fr : Datagram) (r : List ℕ)
    → IsDatagram fr r
    → read_datagram fr.type (
        ((if fr.type == FrameType.datagram_len then encoding (length (concat fr.payload)) else [])
          ++ concat fr.payload)
        ++ r)
      ≡ some (received (Frame.datagram fr), r)
unfolding read_datagram read_tail received
datagram-reads fr r (hb, inl (t, e)) = ground (arith, append-nil (concat fr.payload))
datagram-reads fr r (hb, inr (t, h)) =
    let bytes = concat fr.payload in
    ground (arith, append_assoc (encoding (length bytes)) bytes r, block-reads bytes r h)

offset-reads :
    (fr : Stream) (r : List ℕ)
    → IsVarint fr.offset
    → read_if ((flags_of fr + 8) / 4 % 2 == 1) (offset_wire fr ++ r) ≡ some (fr.offset, r)
unfolding read_if flags_of offset_wire
offset-reads fr r h = ground (arith, read_varint-encoding fr.offset r h)

flag-bits :
    (fr : Stream)
    → ((flags_of fr + 8) / 2 % 2 ≡ 1)
      × (((flags_of fr + 8) % 2 == 1) ≡ fr.fin)
      × ((flags_of fr + 8) / 16 * 16 + (flags_of fr + 8) % 8 ≡ flags_of fr)
unfolding flags_of
flag-bits fr = elim (Bool-cases fr.fin) [
  | inl e ↦ (ground arith, ground arith, ground arith)
  | inr e ↦ (ground arith, ground arith, ground arith)
]

pub stream-reads :
    (fr : Stream) (r : List ℕ)
    → IsVarint fr.stream_id
    → IsVarint fr.offset
    → IsVarint (length (data_of fr))
    → read_stream (flags_of fr + 8) (
        (encoding fr.stream_id
          ++ (offset_wire fr ++ (encoding (length (data_of fr)) ++ data_of fr)))
        ++ r)
      ≡ some (received (Frame.stream fr), r)
unfolding read_stream read_tail received
stream-reads fr r h1 h2 h3 =
    let bytes = data_of fr in
    let end = encoding (length bytes) ++ bytes in
    rw (
      append_assoc (encoding fr.stream_id) (offset_wire fr ++ end) r,
      append_assoc (offset_wire fr) end r,
      append_assoc (encoding (length bytes)) bytes r,
      read_varint-encoding fr.stream_id
          (offset_wire fr ++ (encoding (length bytes) ++ (bytes ++ r))) h1,
      offset-reads fr (encoding (length bytes) ++ (bytes ++ r)) h2,
      (flag-bits fr).0,
      (flag-bits fr).1,
      (flag-bits fr).2,
      block-reads bytes r h3,
    )

ranges-reads :
    (rs : List AckRange) (r : List ℕ)
    → All IsRange rs
    → read_ranges (length rs) (ranges_wire rs ++ r) ≡ some (rs, r)
unfolding read_ranges ranges_wire
ranges-reads [] r h = refl
ranges-reads (a ∷ rs) r h = rw (
  append_assoc (encoding a.gap) (encoding a.len ++ ranges_wire rs) r,
  append_assoc (encoding a.len) (ranges_wire rs) r,
  read_varint-encoding a.gap (encoding a.len ++ (ranges_wire rs ++ r)) h.0.0,
  read_varint-encoding a.len (ranges_wire rs ++ r) h.0.1,
  ranges-reads rs r h.1,
)

ecn-reads :
    (e : Option Ecn) (r : List ℕ)
    → IsEcn e
    → read_ecn
        (elim e [ none ↦ FrameType.ack | some c ↦ FrameType.ack_ecn ] == FrameType.ack_ecn)
        (ecn_wire e ++ r)
      ≡ some (e, r)
unfolding read_ecn ecn_wire
ecn-reads none r h = refl
ecn-reads (some e) r h = rw (
  append_assoc (encoding e.ect0) (encoding e.ect1 ++ encoding e.ce) r,
  append_assoc (encoding e.ect1) (encoding e.ce) r,
  read_varint-encoding e.ect0 (encoding e.ect1 ++ (encoding e.ce ++ r)) h.0,
  read_varint-encoding e.ect1 (encoding e.ce ++ r) h.1,
  read_varint-encoding e.ce r h.2,
)

pub ack-reads :
    (fr : Ack) (r : List ℕ)
    → IsVarint fr.largest_ack
    → IsVarint fr.ack_delay
    → IsVarint (length fr.ranges)
    → IsVarint fr.first_ack_range
    → All IsRange fr.ranges
    → IsEcn fr.ecn
    → read_ack
        (elim fr.ecn [ none ↦ FrameType.ack | some c ↦ FrameType.ack_ecn ])
        ((encoding fr.largest_ack
            ++ (encoding fr.ack_delay
                ++ (encoding (length fr.ranges)
                    ++ (encoding fr.first_ack_range
                        ++ (ranges_wire fr.ranges ++ ecn_wire fr.ecn)))))
          ++ r)
      ≡ some (received (Frame.ack fr), r)
unfolding read_ack received
ack-reads fr r h1 h2 h3 h4 h5 h6 =
    let a = encoding fr.largest_ack in
    let b = encoding fr.ack_delay in
    let c = encoding (length fr.ranges) in
    let d = encoding fr.first_ack_range in
    let s = ranges_wire fr.ranges in
    let e = ecn_wire fr.ecn in
    rw (
      append_assoc a (b ++ (c ++ (d ++ (s ++ e)))) r,
      append_assoc b (c ++ (d ++ (s ++ e))) r,
      append_assoc c (d ++ (s ++ e)) r,
      append_assoc d (s ++ e) r,
      append_assoc s e r,
      read_varint-encoding fr.largest_ack (b ++ (c ++ (d ++ (s ++ (e ++ r))))) h1,
      read_varint-encoding fr.ack_delay (c ++ (d ++ (s ++ (e ++ r)))) h2,
      read_varint-encoding (length fr.ranges) (d ++ (s ++ (e ++ r))) h3,
      read_varint-encoding fr.first_ack_range (s ++ (e ++ r)) h4,
      ranges-reads fr.ranges (e ++ r) h5,
      ecn-reads fr.ecn r h6,
    )
