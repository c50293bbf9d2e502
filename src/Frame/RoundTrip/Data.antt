-- ===== src/Frame/RoundTrip/Data.antt =====
-- The bytes of the frames that carry data, and of ACK frames.
use zngtcp.Base.{
  ℕ, ◌+◌, ◌≡◌, refl, ap, inl, inr, List, [], ◌∷◌, ◌++◌, Option, none, some, ok, length,
  length-append, All, Bool-cases, Option-cases, ◌==◌, bit_or, arith,
}
use zngtcp.Conv.Write.{encoding, put_uvarint-encoding, put_uvarintlen-encoding}
use zngtcp.Frame.{Frame, Stream, Ack, AckRange, Ecn, Datagram}
use zngtcp.Frame.FrameType
use zngtcp.Frame.Cursor.{write}
use zngtcp.Frame.Encode.Data
use zngtcp.Frame.Encode.Data.{copy_vecs, vec_len}
use zngtcp.Frame.Encode.Acks
use zngtcp.Frame.Wire.{
  concat, data_of, flags_of, offset_wire, stream_wire, ranges_wire, ecn_wire, ack_wire, wire,
}
use zngtcp.Frame.Sendable.{IsVarint, IsBlock, HasData, IsRange, IsEcn, IsDatagram}
use zngtcp.Frame.RoundTrip.Encoded.{fits}

copy_vecs_eq : (vs : List (List ℕ)) → copy_vecs vs ≡ concat vs
unfolding copy_vecs concat
copy_vecs_eq [] = refl
copy_vecs_eq (v ∷ vs) = ap (◌++◌ v) (copy_vecs_eq vs)

vec_len_eq : (vs : List (List ℕ)) → vec_len vs ≡ length (concat vs)
unfolding vec_len concat
vec_len_eq [] = refl
vec_len_eq (v ∷ vs) = ground (arith, vec_len_eq vs, length-append v (concat vs))

pub crypto-wire :
    (outlen : ℕ) (fr : Stream)
    → IsVarint fr.offset
    → IsVarint (length (concat fr.payload))
    → Data.encode_crypto_frame outlen fr ≡ fits outlen (wire (Frame.crypto fr))
unfolding Data.encode_crypto_frame write wire
crypto-wire outlen fr h1 h2 =
    let bytes = concat fr.payload in
    ground (
      arith,
      copy_vecs_eq fr.payload,
      vec_len_eq fr.payload,
      put_uvarint-encoding fr.offset h1,
      put_uvarintlen-encoding fr.offset h1,
      put_uvarint-encoding (length bytes) h2,
      put_uvarintlen-encoding (length bytes) h2,
      length-append (encoding fr.offset) (encoding (length bytes) ++ bytes),
      length-append (encoding (length bytes)) bytes,
    )

pub datagram-wire :
    (outlen : ℕ) (fr : Datagram) (r : List ℕ)
    → IsDatagram fr r
    → Data.encode_datagram_frame outlen fr ≡ fits outlen (wire (Frame.datagram fr))
unfolding Data.encode_datagram_frame write wire
datagram-wire outlen fr r (hb, inl (t, _)) =
    ground (arith, copy_vecs_eq fr.payload, vec_len_eq fr.payload)
datagram-wire outlen fr r (hb, inr (t, h)) =
    let bytes = concat fr.payload in
    ground (
      arith,
      copy_vecs_eq fr.payload,
      vec_len_eq fr.payload,
      put_uvarint-encoding (length bytes) h,
      put_uvarintlen-encoding (length bytes) h,
      length-append (encoding (length bytes)) bytes,
    )

stream_bytes_eq :
    (fr : Stream) → HasData fr.txbuf fr.payload → Data.stream_bytes fr ≡ ok (data_of fr)
unfolding Data.stream_bytes data_of
stream_bytes_eq fr h = elim (Option-cases fr.txbuf) [
  | inl e ↦ ground (arith, copy_vecs_eq fr.payload)
  | inr (b, e) ↦ ground arith
]

flags_eq : (fr : Stream) → bit_or (Data.stream_flags fr) FrameType.stream ≡ flags_of fr + 8
unfolding Data.stream_flags flags_of
flags_eq fr = elim (Bool-cases fr.fin) [
  | inl e ↦ elim (Bool-cases (fr.offset == 0)) [ inl f ↦ rw (e, f) | inr f ↦ rw (e, f) ]
  | inr e ↦ elim (Bool-cases (fr.offset == 0)) [ inl f ↦ rw (e, f) | inr f ↦ rw (e, f) ]
]

stream_datalen_eq : (fr : Stream) → Data.stream_datalen fr ≡ length (data_of fr)
unfolding Data.stream_datalen data_of
stream_datalen_eq fr = elim (Option-cases fr.txbuf) [
  | inl e ↦ ground (arith, vec_len_eq fr.payload)
  | inr (b, e) ↦ ground arith
]

put_offset_eq :
    (fr : Stream)
    → IsVarint fr.offset
    → (Data.put_offset fr ≡ ok (offset_wire fr))
      × (Data.put_offsetlen fr ≡ ok (length (offset_wire fr)))
unfolding Data.put_offset Data.put_offsetlen offset_wire
put_offset_eq fr h = (
  ground (arith, put_uvarint-encoding fr.offset h),
  ground (arith, put_uvarintlen-encoding fr.offset h),
)

pub IsVarint-data : (fr : Stream) → HasData fr.txbuf fr.payload → IsBlock (data_of fr)
unfolding data_of
IsVarint-data fr h = elim (Option-cases fr.txbuf) [
  | inl e ↦ ground (arith, h)
  | inr (b, e) ↦ ground (arith, h)
]

pub stream-wire :
    (outlen : ℕ) (fr : Stream)
    → IsVarint fr.stream_id
    → IsVarint fr.offset
    → HasData fr.txbuf fr.payload
    → Data.encode_stream_frame outlen fr ≡ fits outlen (wire (Frame.stream fr))
unfolding Data.encode_stream_frame write wire stream_wire
stream-wire outlen fr h1 h2 h3 =
    let bytes = data_of fr in
    let h4 = (IsVarint-data fr h3).1 in
    ground (
      arith,
      flags_eq fr,
      stream_datalen_eq fr,
      stream_bytes_eq fr h3,
      (put_offset_eq fr h2).0,
      (put_offset_eq fr h2).1,
      put_uvarint-encoding fr.stream_id h1,
      put_uvarintlen-encoding fr.stream_id h1,
      put_uvarint-encoding (length bytes) h4,
      put_uvarintlen-encoding (length bytes) h4,
      length-append (encoding fr.stream_id) (offset_wire fr ++ (encoding (length bytes) ++ bytes)),
      length-append (offset_wire fr) (encoding (length bytes) ++ bytes),
      length-append (encoding (length bytes)) bytes,
    )

put_ranges_eq :
    (rs : List AckRange)
    → All IsRange rs
    → (Acks.put_ranges rs ≡ ok (ranges_wire rs))
      × (Acks.put_rangeslen rs ≡ ok (length (ranges_wire rs)))
unfolding Acks.put_ranges Acks.put_rangeslen ranges_wire
put_ranges_eq [] h = (refl, refl)
put_ranges_eq (r ∷ rs) h =
    let rest = put_ranges_eq rs h.1 in
    (
      ground (arith, rest.0, put_uvarint-encoding r.gap h.0.0, put_uvarint-encoding r.len h.0.1),
      ground (
        arith,
        rest.1,
        put_uvarintlen-encoding r.gap h.0.0,
        put_uvarintlen-encoding r.len h.0.1,
        length-append (encoding r.gap) (encoding r.len ++ ranges_wire rs),
        length-append (encoding r.len) (ranges_wire rs),
      ),
    )

put_ecn_eq :
    (e : Option Ecn)
    → IsEcn e
    → (Acks.put_ecn e ≡ ok (ecn_wire e)) × (Acks.put_ecnlen e ≡ ok (length (ecn_wire e)))
unfolding Acks.put_ecn Acks.put_ecnlen ecn_wire
put_ecn_eq none h = (refl, refl)
put_ecn_eq (some e) h = (
  ground (
    arith,
    put_uvarint-encoding e.ect0 h.0,
    put_uvarint-encoding e.ect1 h.1,
    put_uvarint-encoding e.ce h.2,
  ),
  ground (
    arith,
    put_uvarintlen-encoding e.ect0 h.0,
    put_uvarintlen-encoding e.ect1 h.1,
    put_uvarintlen-encoding e.ce h.2,
    length-append (encoding e.ect0) (encoding e.ect1 ++ encoding e.ce),
    length-append (encoding e.ect1) (encoding e.ce),
  ),
)

pub ack-wire :
    (outlen : ℕ) (fr : Ack)
    → IsVarint fr.largest_ack
    → IsVarint fr.ack_delay
    → IsVarint (length fr.ranges)
    → IsVarint fr.first_ack_range
    → All IsRange fr.ranges
    → IsEcn fr.ecn
    → Acks.encode_ack_frame outlen fr ≡ fits outlen (wire (Frame.ack fr))
unfolding Acks.encode_ack_frame Acks.ack_type write wire ack_wire
ack-wire outlen fr h1 h2 h3 h4 h5 h6 =
    let end = ranges_wire fr.ranges ++ ecn_wire fr.ecn in
    let a = encoding fr.largest_ack in
    let b = encoding fr.ack_delay in
    let c = encoding (length fr.ranges) in
    let d = encoding fr.first_ack_range in
    ground (
      arith,
      put_uvarint-encoding fr.largest_ack h1,
      put_uvarintlen-encoding fr.largest_ack h1,
      put_uvarint-encoding fr.ack_delay h2,
      put_uvarintlen-encoding fr.ack_delay h2,
      put_uvarint-encoding (length fr.ranges) h3,
      put_uvarintlen-encoding (length fr.ranges) h3,
      put_uvarint-encoding fr.first_ack_range h4,
      put_uvarintlen-encoding fr.first_ack_range h4,
      (put_ranges_eq fr.ranges h5).0,
      (put_ranges_eq fr.ranges h5).1,
      (put_ecn_eq fr.ecn h6).0,
      (put_ecn_eq fr.ecn h6).1,
      length-append a (b ++ (c ++ (d ++ end))),
      length-append b (c ++ (d ++ end)),
      length-append c (d ++ end),
      length-append d end,
      length-append (ranges_wire fr.ranges) (ecn_wire fr.ecn),
    )
