-- ===== src/Frame/Sound/Whole.antt =====
-- The frame decoder returns what the layouts say.
use zngtcp.Base.{ℕ, zero, suc, ◌≤◌, ◌≡◌, refl, List, [], ◌∷◌, length, length-drop, All, arith}
use zngtcp.Conv.{IsByte}
use zngtcp.Frame.Decode.{Case, case_of, decode_case, decode}
use zngtcp.Frame.Decode.Control
use zngtcp.Frame.Decode.Control.{
  decode_padding_frame, decode_ping_frame, decode_handshake_done_frame,
}
use zngtcp.Frame.Layout
use zngtcp.Frame.Layout.{result}
use zngtcp.Frame.Layout.Whole.{read_padding, read_case, read_frame}
use zngtcp.Frame.Sound.Flow.{
  max_data-layout, max_stream_data-layout, max_streams-layout, data_blocked-layout,
  stream_data_blocked-layout, streams_blocked-layout,
}
use zngtcp.Frame.Sound.Control.{
  reset_stream-layout, stop_sending-layout, retire_connection_id-layout, path_challenge-layout,
  path_response-layout, new_token-layout, new_connection_id-layout, connection_close-layout,
}
use zngtcp.Frame.Sound.Data.{crypto-layout, datagram-layout, stream-layout}
use zngtcp.Frame.Sound.Acks.Whole.{ack-layout}

padding_run_eq : (p : List ℕ) → Control.padding_run p ≡ Layout.padding_run p
unfolding Control.padding_run Layout.padding_run
padding_run_eq [] = refl
padding_run_eq (zero ∷ p) = ground (arith, padding_run_eq p)
padding_run_eq (suc b ∷ p) = ground arith

padding_run-le : (p : List ℕ) → Layout.padding_run p ≤ length p
unfolding Layout.padding_run
padding_run-le [] = omega arith
padding_run-le (zero ∷ p) = omega (arith, padding_run-le p)
padding_run-le (suc b ∷ p) = omega arith

padding-layout :
    (t : ℕ) (p : List ℕ) → decode_padding_frame (t ∷ p) ≡ result (t ∷ p) (read_padding p)
unfolding decode_padding_frame read_padding
padding-layout t p =
    ground (arith, padding_run_eq p, padding_run-le p, length-drop (Layout.padding_run p) p)

decode_case-read_case :
    (c : Case) (t : ℕ) (p : List ℕ)
    → All IsByte p
    → case_of t ≡ c
    → decode_case c (t ∷ p) ≡ result (t ∷ p) (read_case c t p)
unfolding decode_case read_case
decode_case-read_case Case.padding t p h e = padding-layout t p
decode_case-read_case Case.reset_stream t p h e = reset_stream-layout t p h
decode_case-read_case Case.connection_close t p h e = connection_close-layout t p h
decode_case-read_case Case.max_data t p h e = max_data-layout t p h
decode_case-read_case Case.max_stream_data t p h e = max_stream_data-layout t p h
decode_case-read_case Case.max_streams t p h e = max_streams-layout t p h
decode_case-read_case Case.ping t p h e = unfold decode_ping_frame in ground arith
decode_case-read_case Case.data_blocked t p h e = data_blocked-layout t p h
decode_case-read_case Case.stream_data_blocked t p h e = stream_data_blocked-layout t p h
decode_case-read_case Case.streams_blocked t p h e = streams_blocked-layout t p h
decode_case-read_case Case.new_connection_id t p h e = new_connection_id-layout t p h
decode_case-read_case Case.stop_sending t p h e = stop_sending-layout t p h
decode_case-read_case Case.ack t p h e = ack-layout t p h
decode_case-read_case Case.path_challenge t p h e = path_challenge-layout t p h
decode_case-read_case Case.path_response t p h e = path_response-layout t p h
decode_case-read_case Case.crypto t p h e = crypto-layout t p h
decode_case-read_case Case.new_token t p h e = new_token-layout t p h
decode_case-read_case Case.retire_connection_id t p h e = retire_connection_id-layout t p h
decode_case-read_case Case.handshake_done t p h e =
    unfold decode_handshake_done_frame in ground arith
decode_case-read_case Case.datagram t p h e = datagram-layout t p h (unfold case_of in ground arith)
decode_case-read_case Case.stream t p h e = stream-layout t p h
decode_case-read_case Case.unknown t p h e = refl

-- On a payload of bytes the two passes of the decoder return the frame, and the number of bytes, that
-- reading its fields one after another gives; they return NGTCP2_ERR_FRAME_ENCODING where that is
-- impossible. So no decoder reads outside of the payload, and no `assert` of them fails.
pub decode-read_frame : (p : List ℕ) → All IsByte p → decode p ≡ result p (read_frame p)
unfolding decode read_frame
decode-read_frame [] h = refl
decode-read_frame (t ∷ p) h = ground (arith, decode_case-read_case (case_of t) t p h.1 refl)
