-- ===== src/Frame/Sendable.antt =====
-- The frames of lib/ngtcp2_pkt.h that can stand in a packet.
use zngtcp.Base.{ℕ, ◌≤◌, ◌<◌, ◌≡◌, ◌⊎◌, List, [], Option, none, some, true, length, All}
use zngtcp.Conv.{IsByte, varint_limit}
use zngtcp.Frame.{Frame, AckRange, Ecn, Datagram}
use zngtcp.Frame.FrameType
use zngtcp.Frame.Encode.Data.{all_nonempty}
use zngtcp.Frame.Layout.{padding_run}
use zngtcp.Frame.Wire.{concat}

abbrev pub IsVarint : ℕ → Type 0
IsVarint n = n < varint_limit

-- Bytes whose number is a variable-length integer.
abbrev pub IsBlock : List ℕ → Type 0
IsBlock bytes = All IsByte bytes × IsVarint (length bytes)

-- The encoder of STREAM frames copies no empty vector.
abbrev pub HasData : Option (List ℕ) → List (List ℕ) → Type 0
HasData none payload = (all_nonempty payload ≡ true) × IsBlock (concat payload)
HasData (some bytes) payload = IsBlock bytes

abbrev pub IsRange : AckRange → Type 0
IsRange r = IsVarint r.gap × IsVarint r.len

abbrev pub IsEcn : Option Ecn → Type 0
IsEcn none = Unit
IsEcn (some e) = IsVarint e.ect0 × IsVarint e.ect1 × IsVarint e.ce

-- Without a length field the data reaches to the end of the packet.
abbrev pub IsDatagram : Datagram → List ℕ → Type 0
IsDatagram fr r =
    All IsByte (concat fr.payload)
    × (((fr.type ≡ FrameType.datagram) × (r ≡ []))
        ⊎ ((fr.type ≡ FrameType.datagram_len) × IsVarint (length (concat fr.payload))))

-- `r` is what follows the frame in the packet: no PADDING behind PADDING, as one count covers both.
abbrev pub Sendable : Frame → List ℕ → Type 0
Sendable (Frame.padding len) r = (1 ≤ len) × (padding_run r ≡ 0)
Sendable Frame.ping r = Unit
Sendable (Frame.ack fr) r =
    IsVarint fr.largest_ack
    × IsVarint fr.ack_delay
    × IsVarint (length fr.ranges)
    × IsVarint fr.first_ack_range
    × All IsRange fr.ranges
    × IsEcn fr.ecn
Sendable (Frame.reset_stream i e n) r = IsVarint i × IsVarint e × IsVarint n
Sendable (Frame.stop_sending i e) r = IsVarint i × IsVarint e
Sendable (Frame.crypto fr) r = IsVarint fr.offset × IsBlock (concat fr.payload)
Sendable (Frame.new_token token) r = (1 ≤ length token) × IsBlock token
Sendable (Frame.stream fr) r =
    IsVarint fr.stream_id × IsVarint fr.offset × HasData fr.txbuf fr.payload
Sendable (Frame.max_data n) r = IsVarint n
Sendable (Frame.max_stream_data i n) r = IsVarint i × IsVarint n
Sendable (Frame.max_streams type n) r =
    ((type ≡ FrameType.max_streams_bidi) ⊎ (type ≡ FrameType.max_streams_uni)) × IsVarint n
Sendable (Frame.data_blocked n) r = IsVarint n
Sendable (Frame.stream_data_blocked i n) r = IsVarint i × IsVarint n
Sendable (Frame.streams_blocked type n) r =
    ((type ≡ FrameType.streams_blocked_bidi) ⊎ (type ≡ FrameType.streams_blocked_uni)) × IsVarint n
Sendable (Frame.new_connection_id fr) r =
    IsVarint fr.seq
    × IsVarint fr.retire_prior_to
    × (1 ≤ length fr.cid)
    × (length fr.cid ≤ 20)
    × All IsByte fr.cid
    × (length fr.token ≡ 16)
    × All IsByte fr.token
Sendable (Frame.retire_connection_id seq) r = IsVarint seq
Sendable (Frame.path_challenge bytes) r = (length bytes ≡ 8) × All IsByte bytes
Sendable (Frame.path_response bytes) r = (length bytes ≡ 8) × All IsByte bytes
Sendable (Frame.connection_close fr) r =
    ((fr.type ≡ FrameType.connection_close) ⊎ (fr.type ≡ FrameType.connection_close_app))
    × IsVarint fr.error_code
    × IsVarint fr.frame_type
    × IsBlock fr.reason
Sendable Frame.handshake_done r = Unit
Sendable (Frame.datagram fr) r = IsDatagram fr r
