-- ===== src/Frame/Layout/Whole.antt =====
-- The layout of a frame, by its type byte.
use zngtcp.Base.{ℕ, ◌+◌, List, [], ◌∷◌, Option, none, some, drop}
use zngtcp.Frame.{Frame}
use zngtcp.Frame.Decode.{Case, case_of}
use zngtcp.Frame.Layout.{
  padding_run, read_one, read_two, read_three, read_new_token, read_path, read_new_connection_id,
  read_connection_close, read_stream, read_crypto, read_datagram, read_ack,
}

-- PADDING frames are counted together.
unfoldable pub read_padding : List ℕ → Option (Frame × List ℕ)
unfolding padding_run
read_padding p = some (Frame.padding (1 + padding_run p), drop (padding_run p) p)

unfoldable pub read_case : Case → ℕ → List ℕ → Option (Frame × List ℕ)
read_case Case.padding t p = read_padding p
read_case Case.reset_stream t p = read_three Frame.reset_stream p
read_case Case.connection_close t p = read_connection_close t p
read_case Case.max_data t p = read_one Frame.max_data p
read_case Case.max_stream_data t p = read_two Frame.max_stream_data p
read_case Case.max_streams t p = read_one (Frame.max_streams t) p
read_case Case.ping t p = some (Frame.ping, p)
read_case Case.data_blocked t p = read_one Frame.data_blocked p
read_case Case.stream_data_blocked t p = read_two Frame.stream_data_blocked p
read_case Case.streams_blocked t p = read_one (Frame.streams_blocked t) p
read_case Case.new_connection_id t p = read_new_connection_id p
read_case Case.stop_sending t p = read_two Frame.stop_sending p
read_case Case.ack t p = read_ack t p
read_case Case.path_challenge t p = read_path Frame.path_challenge p
read_case Case.path_response t p = read_path Frame.path_response p
read_case Case.crypto t p = read_crypto p
read_case Case.new_token t p = read_new_token p
read_case Case.retire_connection_id t p = read_one Frame.retire_connection_id p
read_case Case.handshake_done t p = some (Frame.handshake_done, p)
read_case Case.datagram t p = read_datagram t p
read_case Case.stream t p = read_stream t p
read_case Case.unknown t p = none

-- The type byte, and the layout that it stands for.
unfoldable pub read_frame : List ℕ → Option (Frame × List ℕ)
unfolding read_case
read_frame [] = none
read_frame (t ∷ p) = read_case (case_of t) t p
