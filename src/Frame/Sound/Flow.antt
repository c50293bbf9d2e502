-- ===== src/Frame/Sound/Flow.antt =====
-- The decoders of the flow control frames return what the layouts say.
use zngtcp.Base.{ℕ, List, ◌∷◌, All, ◌≡◌, arith}
use zngtcp.Conv.{IsByte}
use zngtcp.Conv.Read.{read_varint, rest, varint_cases}
use zngtcp.Frame.{Frame}
use zngtcp.Frame.Layout.{result, read_one, read_two}
use zngtcp.Frame.Decode.Flow.{
  decode_max_data_frame, decode_max_stream_data_frame, decode_max_streams_frame,
  decode_data_blocked_frame, decode_stream_data_blocked_frame, decode_streams_blocked_frame,
}

pub max_data-layout :
    (t : ℕ) (p : List ℕ)
    → All IsByte p
    → decode_max_data_frame (t ∷ p) ≡ result (t ∷ p) (read_one Frame.max_data p)
unfolding decode_max_data_frame read_one rest read_varint
max_data-layout t p h = ground (arith, varint_cases p h)

pub max_stream_data-layout :
    (t : ℕ) (p : List ℕ)
    → All IsByte p
    → decode_max_stream_data_frame (t ∷ p) ≡ result (t ∷ p) (read_two Frame.max_stream_data p)
unfolding decode_max_stream_data_frame read_two rest read_varint
max_stream_data-layout t p h = ground (arith, varint_cases p h, varint_cases (rest p))

pub max_streams-layout :
    (t : ℕ) (p : List ℕ)
    → All IsByte p
    → decode_max_streams_frame (t ∷ p) ≡ result (t ∷ p) (read_one (Frame.max_streams t) p)
unfolding decode_max_streams_frame read_one rest read_varint
max_streams-layout t p h = ground (arith, varint_cases p h)

pub data_blocked-layout :
    (t : ℕ) (p : List ℕ)
    → All IsByte p
    → decode_data_blocked_frame (t ∷ p) ≡ result (t ∷ p) (read_one Frame.data_blocked p)
unfolding decode_data_blocked_frame read_one rest read_varint
data_blocked-layout t p h = ground (arith, varint_cases p h)

pub stream_data_blocked-layout :
    (t : ℕ) (p : List ℕ)
    → All IsByte p
    → decode_stream_data_blocked_frame (t ∷ p)
      ≡ result (t ∷ p) (read_two Frame.stream_data_blocked p)
unfolding decode_stream_data_blocked_frame read_two rest read_varint
stream_data_blocked-layout t p h = ground (arith, varint_cases p h, varint_cases (rest p))

pub streams_blocked-layout :
    (t : ℕ) (p : List ℕ)
    → All IsByte p
    → decode_streams_blocked_frame (t ∷ p) ≡ result (t ∷ p) (read_one (Frame.streams_blocked t) p)
unfolding decode_streams_blocked_frame read_one rest read_varint
streams_blocked-layout t p h = ground (arith, varint_cases p h)
