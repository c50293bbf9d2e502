-- ===== src/Frame/RoundTrip/Bytes.antt =====
-- The bytes of a frame are bytes.
use zngtcp.Base.{
  ℕ, zero, suc, ◌+◌, inl, inr, List, [], ◌∷◌, ◌++◌, Option, none, some, length, replicate, All,
  Bool-cases, ◌==◌, arith,
}
use zngtcp.Conv.{IsByte}
use zngtcp.Conv.Write.{encoding, encoding-IsByte, All-append}
use zngtcp.Frame.{Frame, Stream, Ack, AckRange, Ecn, ConnectionClose, Datagram}
use zngtcp.Frame.FrameType
use zngtcp.Frame.Wire.{
  concat, data_of, flags_of, offset_wire, frame_type_wire, ranges_wire, ecn_wire, stream_wire,
  ack_wire, wire,
}
use zngtcp.Frame.Sendable.{IsVarint, IsBlock, HasData, IsRange, IsEcn, IsDatagram, Sendable}
use zngtcp.Frame.RoundTrip.Data.{IsVarint-data}

abbrev AreBytes : List ℕ → Type 0
AreBytes bytes = All IsByte bytes

two-IsByte : (a b : ℕ) → IsVarint a → IsVarint b → AreBytes (encoding a ++ encoding b)
two-IsByte a b h1 h2 = All-append _ _ (encoding-IsByte a h1) (encoding-IsByte b h2)

zeros-IsByte : (n : ℕ) → AreBytes (replicate n 0)
zeros-IsByte zero = tt
zeros-IsByte (suc n) = (omega arith, zeros-IsByte n)

block-IsByte : (bs : List ℕ) → IsBlock bs → AreBytes (encoding (length bs) ++ bs)
block-IsByte bs h = All-append _ _ (encoding-IsByte (length bs) h.1) (h.0)

ranges-IsByte : (rs : List AckRange) → All IsRange rs → AreBytes (ranges_wire rs)
unfolding ranges_wire
ranges-IsByte [] h = tt
ranges-IsByte (r ∷ rs) h =
    All-append _ _ (encoding-IsByte r.gap h.0.0)
      (All-append _ _ (encoding-IsByte r.len h.0.1) (ranges-IsByte rs h.1))

ecn-IsByte : (e : Option Ecn) → IsEcn e → AreBytes (ecn_wire e)
unfolding ecn_wire
ecn-IsByte none h = tt
ecn-IsByte (some e) h =
    All-append _ _ (encoding-IsByte e.ect0 h.0)
      (All-append _ _ (encoding-IsByte e.ect1 h.1) (encoding-IsByte e.ce h.2))

offset-IsByte : (fr : Stream) → IsVarint fr.offset → AreBytes (offset_wire fr)
unfolding offset_wire
offset-IsByte fr h = elim (Bool-cases (fr.offset == 0)) [
  | inl e ↦ rw e tt
  | inr e ↦ rw e (encoding-IsByte fr.offset h)
]

frame_type-IsByte : (fr : ConnectionClose) → IsVarint fr.frame_type → AreBytes (frame_type_wire fr)
unfolding frame_type_wire
frame_type-IsByte fr h = elim (Bool-cases (fr.type == FrameType.connection_close)) [
  | inl e ↦ rw e (encoding-IsByte fr.frame_type h)
  | inr e ↦ rw e tt
]

flags-IsByte : (fr : Stream) → IsByte (flags_of fr + 8)
unfolding flags_of
flags-IsByte fr = ground arith

stream-IsByte :
    (fr : Stream)
    → IsVarint fr.stream_id
    → IsVarint fr.offset
    → HasData fr.txbuf fr.payload
    → AreBytes (stream_wire fr)
unfolding stream_wire
stream-IsByte fr h1 h2 h3 = (
  flags-IsByte fr,
  All-append _ _ (encoding-IsByte fr.stream_id h1)
      (All-append _ _ (offset-IsByte fr h2) (block-IsByte (data_of fr) (IsVarint-data fr h3))),
)

ack_type-IsByte :
    (e : Option Ecn) → IsByte (elim e [ none ↦ FrameType.ack | some c ↦ FrameType.ack_ecn ])
ack_type-IsByte none = omega arith
ack_type-IsByte (some e) = omega arith

ack-IsByte : (fr : Ack) (r : List ℕ) → Sendable (Frame.ack fr) r → AreBytes (ack_wire fr)
unfolding ack_wire
ack-IsByte fr r h = (
  ack_type-IsByte fr.ecn,
  All-append _ _ (encoding-IsByte fr.largest_ack h.0) (
      All-append _ _ (encoding-IsByte fr.ack_delay h.1) (
        All-append _ _ (encoding-IsByte (length fr.ranges) h.2) (
          All-append _ _ (encoding-IsByte fr.first_ack_range h.3)
            (All-append _ _ (ranges-IsByte fr.ranges h.4) (ecn-IsByte fr.ecn h.5))))),
)

datagram-IsByte :
    (fr : Datagram) (r : List ℕ) → IsDatagram fr r → AreBytes (wire (Frame.datagram fr))
unfolding wire
datagram-IsByte fr r (hb, inl (t, e)) = rw t (omega arith, hb)
datagram-IsByte fr r (hb, inr (t, h)) = rw t (omega arith, block-IsByte (concat fr.payload) (hb, h))

-- A frame that can be sent is sent as bytes.
pub wire-IsByte : (fr : Frame) (r : List ℕ) → Sendable fr r → AreBytes (wire fr)
unfolding wire
wire-IsByte (Frame.padding len) r h = zeros-IsByte len
wire-IsByte Frame.ping r h = (omega arith, tt)
wire-IsByte (Frame.ack fr) r h = ack-IsByte fr r h
wire-IsByte (Frame.reset_stream i e n) r h =
    (omega arith, All-append _ _ (encoding-IsByte i h.0) (two-IsByte e n h.1 h.2))
wire-IsByte (Frame.stop_sending i e) r h = (omega arith, two-IsByte i e h.0 h.1)
wire-IsByte (Frame.crypto fr) r h = (
  omega arith,
  All-append _ _ (encoding-IsByte fr.offset h.0) (block-IsByte (concat fr.payload) h.1),
)
wire-IsByte (Frame.new_token token) r h = (omega arith, block-IsByte token h.1)
wire-IsByte (Frame.stream fr) r h = stream-IsByte fr h.0 h.1 h.2
wire-IsByte (Frame.max_data n) r h = (omega arith, encoding-IsByte n h)
wire-IsByte (Frame.max_stream_data i n) r h = (omega arith, two-IsByte i n h.0 h.1)
wire-IsByte (Frame.max_streams type n) r h = (ground (arith, h.0), encoding-IsByte n h.1)
wire-IsByte (Frame.data_blocked n) r h = (omega arith, encoding-IsByte n h)
wire-IsByte (Frame.stream_data_blocked i n) r h = (omega arith, two-IsByte i n h.0 h.1)
wire-IsByte (Frame.streams_blocked type n) r h = (ground (arith, h.0), encoding-IsByte n h.1)
wire-IsByte (Frame.new_connection_id fr) r h =
    let end : AreBytes (length fr.cid ∷ (fr.cid ++ fr.token)) =
      (omega arith, All-append fr.cid fr.token h.4 h.6) in
    (
      omega arith,
      All-append _ _ (encoding-IsByte fr.seq h.0)
          (All-append _ _ (encoding-IsByte fr.retire_prior_to h.1) end),
    )
wire-IsByte (Frame.retire_connection_id seq) r h = (omega arith, encoding-IsByte seq h)
wire-IsByte (Frame.path_challenge bytes) r h = (omega arith, h.1)
wire-IsByte (Frame.path_response bytes) r h = (omega arith, h.1)
wire-IsByte (Frame.connection_close fr) r h = (
  ground (arith, h.0),
  All-append _ _ (encoding-IsByte fr.error_code h.1)
      (All-append _ _ (frame_type-IsByte fr h.2) (block-IsByte fr.reason h.3)),
)
wire-IsByte Frame.handshake_done r h = (omega arith, tt)
wire-IsByte (Frame.datagram fr) r h = datagram-IsByte fr r h
