-- ===== src/Frame/Wire.antt =====
-- What a frame looks like on the wire, which frames can be sent, and what the peer receives.
use zngtcp.Base.{
  ℕ, ◌+◌, List, [], ◌∷◌, ◌++◌, Option, none, some, false, length, take, replicate, if◌then◌else◌,
  ◌==◌,
}
use zngtcp.Conv.Write.{encoding}
use zngtcp.Frame.{Frame, Stream, Ack, AckRange, Ecn, ConnectionClose}
use zngtcp.Frame.FrameType
use zngtcp.Frame.Layout.{one_vec}

-- The bytes of a list of vectors.
unfoldable pub concat : List (List ℕ) → List ℕ
concat [] = []
concat (v ∷ vs) = v ++ concat vs

-- The data of a STREAM frame.
unfoldable pub data_of : Stream → List ℕ
unfolding concat
data_of fr = elim fr.txbuf [ none ↦ concat fr.payload | some b ↦ b ]

-- FIN is bit 0, LEN, always set, bit 1, and OFF bit 2.
unfoldable pub flags_of : Stream → ℕ
flags_of fr = (if fr.fin then 1 else 0) + 2 + (if fr.offset == 0 then 0 else 4)

unfoldable pub offset_wire : Stream → List ℕ
offset_wire fr = if fr.offset == 0 then [] else encoding fr.offset

unfoldable pub ranges_wire : List AckRange → List ℕ
ranges_wire [] = []
ranges_wire (r ∷ rs) = encoding r.gap ++ (encoding r.len ++ ranges_wire rs)

unfoldable pub ecn_wire : Option Ecn → List ℕ
ecn_wire none = []
ecn_wire (some e) = encoding e.ect0 ++ (encoding e.ect1 ++ encoding e.ce)

unfoldable pub frame_type_wire : ConnectionClose → List ℕ
frame_type_wire fr = if fr.type == FrameType.connection_close then encoding fr.frame_type else []

unfoldable pub stream_wire : Stream → List ℕ
unfolding flags_of offset_wire data_of
stream_wire fr =
    (flags_of fr + 8)
    ∷ (encoding fr.stream_id ++ (offset_wire fr ++ (encoding (length (data_of fr)) ++ data_of fr)))

unfoldable pub ack_wire : Ack → List ℕ
unfolding ranges_wire ecn_wire
ack_wire fr =
    elim fr.ecn [ none ↦ FrameType.ack | some e ↦ FrameType.ack_ecn ]
    ∷ (encoding fr.largest_ack
        ++ (encoding fr.ack_delay
            ++ (encoding (length fr.ranges)
                ++ (encoding fr.first_ack_range ++ (ranges_wire fr.ranges ++ ecn_wire fr.ecn)))))

unfoldable pub wire : Frame → List ℕ
wire (Frame.padding len) = replicate len 0
wire Frame.ping = FrameType.ping ∷ []
wire (Frame.ack fr) = ack_wire fr
wire (Frame.reset_stream i e n) =
    FrameType.reset_stream ∷ (encoding i ++ (encoding e ++ encoding n))
wire (Frame.stop_sending i e) = FrameType.stop_sending ∷ (encoding i ++ encoding e)
wire (Frame.crypto fr) =
    FrameType.crypto
    ∷ (encoding fr.offset ++ (encoding (length (concat fr.payload)) ++ concat fr.payload))
wire (Frame.new_token token) = FrameType.new_token ∷ (encoding (length token) ++ token)
wire (Frame.stream fr) = stream_wire fr
wire (Frame.max_data n) = FrameType.max_data ∷ encoding n
wire (Frame.max_stream_data i n) = FrameType.max_stream_data ∷ (encoding i ++ encoding n)
wire (Frame.max_streams type n) = type ∷ encoding n
wire (Frame.data_blocked n) = FrameType.data_blocked ∷ encoding n
wire (Frame.stream_data_blocked i n) = FrameType.stream_data_blocked ∷ (encoding i ++ encoding n)
wire (Frame.streams_blocked type n) = type ∷ encoding n
wire (Frame.new_connection_id fr) =
    FrameType.new_connection_id
    ∷ (encoding fr.seq ++ (encoding fr.retire_prior_to ++ (length fr.cid ∷ (fr.cid ++ fr.token))))
wire (Frame.retire_connection_id seq) = FrameType.retire_connection_id ∷ encoding seq
wire (Frame.path_challenge bytes) = FrameType.path_challenge ∷ bytes
wire (Frame.path_response bytes) = FrameType.path_response ∷ bytes
wire (Frame.connection_close fr) =
    fr.type
    ∷ (encoding fr.error_code ++ (frame_type_wire fr ++ (encoding (length fr.reason) ++ fr.reason)))
wire Frame.handshake_done = FrameType.handshake_done ∷ []
wire (Frame.datagram fr) =
    fr.type
    ∷ ((if fr.type == FrameType.datagram_len then encoding (length (concat fr.payload)) else [])
        ++ concat fr.payload)

-- What the peer decodes: data in one vector, 32 ranges at most, and no field that is not sent.
unfoldable pub received : Frame → Frame
unfolding data_of flags_of concat
received (Frame.ack fr) =
    Frame.ack (record fr { ack_delay_unscaled = 0; ranges = take 32 fr.ranges })
received (Frame.crypto fr) = Frame.crypto (record {
  flags = 0;
  fin = false;
  stream_id = 0;
  offset = fr.offset;
  payload = one_vec (concat fr.payload);
  txbuf = none;
})
received (Frame.stream fr) =
    Frame.stream (record fr { flags = flags_of fr; payload = one_vec (data_of fr); txbuf = none })
received (Frame.connection_close fr) =
    Frame.connection_close (record fr {
      frame_type = if fr.type == FrameType.connection_close then fr.frame_type else 0;
    })
received (Frame.datagram fr) = Frame.datagram (record fr { payload = one_vec (concat fr.payload) })
received fr = fr
