-- ===== src/Frame/RoundTrip/Whole.antt =====
-- `ngtcp2_pkt_encode_frame` followed by `ngtcp2_frame_decoder_decode`.
use zngtcp.Base.{
  ℕ, zero, suc, ◌+◌, ◌≡◌, refl, sym, ◌∙◌, ◌⊎◌, inl, inr, List, ◌++◌, Option, none, some, ok, length,
  length-append, All, arith, ap,
}
use zngtcp.Conv.{IsByte}
use zngtcp.Conv.Write.{All-append}
use zngtcp.Frame.{Frame, Ecn, Stream, ConnectionClose, Datagram}
use zngtcp.Frame.FrameType
use zngtcp.Frame.Encode
use zngtcp.Frame.Encode.{encode}
use zngtcp.Frame.Decode.{Case, case_of, decode}
use zngtcp.Frame.Layout.{result}
use zngtcp.Frame.Layout.Whole.{read_case, read_frame}
use zngtcp.Frame.Sound.Whole.{decode-read_frame}
use zngtcp.Frame.Wire.{wire, flags_of, stream_wire, ack_wire, received}
use zngtcp.Frame.Sendable.{Sendable, IsDatagram}
use zngtcp.Frame.RoundTrip.Encoded
use zngtcp.Frame.RoundTrip.Encoded.{fits}
use zngtcp.Frame.RoundTrip.Data
use zngtcp.Frame.RoundTrip.Data.{IsVarint-data}
use zngtcp.Frame.RoundTrip.Readable
use zngtcp.Frame.RoundTrip.Fields
use zngtcp.Frame.RoundTrip.Bytes.{wire-IsByte}

-- The encoder of a frame that can be sent writes the bytes of its layout if there is room for them,
-- and returns NGTCP2_ERR_NOBUF if there is not; no `assert` of it fails.
pub encode-wire :
    (outlen : ℕ) (fr : Frame) (r : List ℕ)
    → Sendable fr r
    → encode outlen fr ≡ fits outlen (wire fr)
unfolding encode
encode-wire outlen (Frame.padding len) r h = Encoded.padding-wire outlen len
encode-wire outlen Frame.ping r h = unfold Encode.encode_ping_frame wire in ground arith
encode-wire outlen (Frame.ack fr) r h = Data.ack-wire outlen fr h.0 h.1 h.2 h.3 h.4 h.5
encode-wire outlen (Frame.reset_stream i e n) r h =
    Encoded.reset_stream-wire outlen i e n h.0 h.1 h.2
encode-wire outlen (Frame.stop_sending i e) r h = Encoded.stop_sending-wire outlen i e h.0 h.1
encode-wire outlen (Frame.crypto fr) r h = Data.crypto-wire outlen fr h.0 h.1.1
encode-wire outlen (Frame.new_token token) r h = Encoded.new_token-wire outlen token h.0 h.1.1
encode-wire outlen (Frame.stream fr) r h = Data.stream-wire outlen fr h.0 h.1 h.2
encode-wire outlen (Frame.max_data n) r h = Encoded.max_data-wire outlen n h
encode-wire outlen (Frame.max_stream_data i n) r h = Encoded.max_stream_data-wire outlen i n h.0 h.1
encode-wire outlen (Frame.max_streams type n) r h = Encoded.max_streams-wire outlen type n h.0 h.1
encode-wire outlen (Frame.data_blocked n) r h = Encoded.data_blocked-wire outlen n h
encode-wire outlen (Frame.stream_data_blocked i n) r h =
    Encoded.stream_data_blocked-wire outlen i n h.0 h.1
encode-wire outlen (Frame.streams_blocked type n) r h =
    Encoded.streams_blocked-wire outlen type n h.0 h.1
encode-wire outlen (Frame.new_connection_id fr) r h =
    Encoded.new_connection_id-wire outlen fr h.0 h.1 h.3 h.5
encode-wire outlen (Frame.retire_connection_id seq) r h =
    Encoded.retire_connection_id-wire outlen seq h
encode-wire outlen (Frame.path_challenge bytes) r h = Encoded.path_challenge-wire outlen bytes h.0
encode-wire outlen (Frame.path_response bytes) r h = Encoded.path_response-wire outlen bytes h.0
encode-wire outlen (Frame.connection_close fr) r h =
    Encoded.connection_close-wire outlen fr h.0 h.1 h.2 h.3.1
encode-wire outlen Frame.handshake_done r h =
    unfold Encode.encode_handshake_done_frame wire in ground arith
encode-wire outlen (Frame.datagram fr) r h = Data.datagram-wire outlen fr r h

case_of-stream : (fr : Stream) → case_of (flags_of fr + 8) ≡ Case.stream
unfolding case_of flags_of
case_of-stream fr = ground arith

case_of-close :
    (fr : ConnectionClose)
    → (fr.type ≡ FrameType.connection_close) ⊎ (fr.type ≡ FrameType.connection_close_app)
    → case_of fr.type ≡ Case.connection_close
unfolding case_of
case_of-close fr (inl t) = rw t refl
case_of-close fr (inr t) = rw t refl

case_of-datagram : (fr : Datagram) (r : List ℕ) → IsDatagram fr r → case_of fr.type ≡ Case.datagram
unfolding case_of
case_of-datagram fr r (hb, inl (t, e)) = rw t refl
case_of-datagram fr r (hb, inr (t, h)) = rw t refl

case_of-ack :
    (e : Option Ecn)
    → case_of (elim e [ none ↦ FrameType.ack | some c ↦ FrameType.ack_ecn ]) ≡ Case.ack
unfolding case_of
case_of-ack none = refl
case_of-ack (some e) = refl

read_frame-wire :
    (fr : Frame) (r : List ℕ) → Sendable fr r → read_frame (wire fr ++ r) ≡ some (received fr, r)
unfolding read_frame read_case case_of wire stream_wire ack_wire received
read_frame-wire (Frame.padding zero) r h = absurd (omega arith)
read_frame-wire (Frame.padding (suc n)) r h = Readable.padding-reads n r h.1
read_frame-wire Frame.ping r h = refl
read_frame-wire (Frame.ack fr) r h =
    rw (case_of-ack fr.ecn) (Fields.ack-reads fr r h.0 h.1 h.2 h.3 h.4 h.5)
read_frame-wire (Frame.reset_stream i e n) r h =
    Readable.three-reads Frame.reset_stream i e n r h.0 h.1 h.2
read_frame-wire (Frame.stop_sending i e) r h = Readable.two-reads Frame.stop_sending i e r h.0 h.1
read_frame-wire (Frame.crypto fr) r h = Readable.crypto-reads fr r h.0 h.1.1
read_frame-wire (Frame.new_token token) r h = Readable.new_token-reads token r h.1.1
read_frame-wire (Frame.stream fr) r h =
    rw (case_of-stream fr) (Fields.stream-reads fr r h.0 h.1 (IsVarint-data fr h.2).1)
read_frame-wire (Frame.max_data n) r h = Readable.one-reads Frame.max_data n r h
read_frame-wire (Frame.max_stream_data i n) r h =
    Readable.two-reads Frame.max_stream_data i n r h.0 h.1
read_frame-wire (Frame.max_streams type n) r (inl t, h) =
    rw t (Readable.one-reads (Frame.max_streams FrameType.max_streams_bidi) n r h)
read_frame-wire (Frame.max_streams type n) r (inr t, h) =
    rw t (Readable.one-reads (Frame.max_streams FrameType.max_streams_uni) n r h)
read_frame-wire (Frame.data_blocked n) r h = Readable.one-reads Frame.data_blocked n r h
read_frame-wire (Frame.stream_data_blocked i n) r h =
    Readable.two-reads Frame.stream_data_blocked i n r h.0 h.1
read_frame-wire (Frame.streams_blocked type n) r (inl t, h) =
    rw t (Readable.one-reads (Frame.streams_blocked FrameType.streams_blocked_bidi) n r h)
read_frame-wire (Frame.streams_blocked type n) r (inr t, h) =
    rw t (Readable.one-reads (Frame.streams_blocked FrameType.streams_blocked_uni) n r h)
read_frame-wire (Frame.new_connection_id fr) r h =
    Readable.new_connection_id-reads fr r h.0 h.1 h.2 h.3 h.5
read_frame-wire (Frame.retire_connection_id seq) r h =
    Readable.one-reads Frame.retire_connection_id seq r h
read_frame-wire (Frame.path_challenge bytes) r h =
    Readable.path-reads Frame.path_challenge bytes r h.0
read_frame-wire (Frame.path_response bytes) r h =
    Readable.path-reads Frame.path_response bytes r h.0
read_frame-wire (Frame.connection_close fr) r h =
    rw (case_of-close fr h.0) (Fields.connection_close-reads fr r h.1 h.2 h.3.1)
read_frame-wire Frame.handshake_done r h = refl
read_frame-wire (Frame.datagram fr) r h =
    rw (case_of-datagram fr r h) (Fields.datagram-reads fr r h)

-- What `ngtcp2_pkt_encode_frame` writes for a frame that can be sent, `ngtcp2_frame_decoder_decode`
-- reads back from the head of a packet: the same frame, up to how its data is held in memory, the
-- ranges of an ACK frame after the 32nd and the fields that are not sent; and it takes as many
-- bytes as were written, whatever bytes follow.
pub decode-encode :
    (outlen : ℕ) (fr : Frame) (r : List ℕ) {bs : List ℕ}
    → Sendable fr r
    → All IsByte r
    → encode outlen fr ≡ ok bs
    → decode (bs ++ r) ≡ ok (received fr, length bs)
decode-encode outlen fr r {bs} h hr e =
    let written : ok bs ≡ fits outlen (wire fr) = sym e ∙ encode-wire outlen fr r h in
    let all_written : bs ≡ wire fr = ground (arith, written) in
    let bytes = wire-IsByte fr r h in
    ap (λ b. decode (b ++ r)) all_written
    ∙ decode-read_frame (wire fr ++ r) (All-append (wire fr) r bytes hr)
    ∙ ap (result (wire fr ++ r)) (read_frame-wire fr r h)
    ∙ ground (arith, length-append (wire fr) r, all_written)
