-- ===== src/Frame/Sound/Data.antt =====
-- The decoders of the frames that carry data return what the layouts say.
use zngtcp.Base.{
  ℕ, ◌⊎◌, List, [], ◌∷◌, All, ◌≡◌, refl, ap, arith, drop, take, length, length-drop, Bool-cases,
  inl, inr, ◌/◌, ◌%◌, ◌==◌,
}
use zngtcp.Conv.{IsByte}
use zngtcp.Conv.Read.{read_varint, value, rest, varint_cases, IsWhole}
use zngtcp.Frame.FrameType
use zngtcp.Frame.Layout.{result, read_crypto, read_stream, read_datagram}
use zngtcp.Frame.Decode.Data.{decode_stream_frame, decode_crypto_frame, decode_datagram_frame}

drop-length : (p : List ℕ) → drop (length p) p ≡ []
drop-length [] = refl
drop-length (b ∷ p) = drop-length p

take-length : (p : List ℕ) → take (length p) p ≡ p
take-length [] = refl
take-length (b ∷ p) = ap (◌∷◌ b) (take-length p)

pub crypto-layout :
    (t : ℕ) (p : List ℕ)
    → All IsByte p
    → decode_crypto_frame (t ∷ p) ≡ result (t ∷ p) (read_crypto p)
unfolding decode_crypto_frame read_crypto rest read_varint
crypto-layout t p h =
    ground
      (arith, varint_cases p h, varint_cases (rest p), length-drop (value (rest p)) (rest (rest p)))

pub datagram-layout :
    (t : ℕ) (p : List ℕ)
    → All IsByte p
    → (t ≡ FrameType.datagram) ⊎ (t ≡ FrameType.datagram_len)
    → decode_datagram_frame (t ∷ p) ≡ result (t ∷ p) (read_datagram t p)
unfolding decode_datagram_frame read_datagram rest read_varint
datagram-layout t p h e =
    ground (arith, varint_cases p h, length-drop (value p) (rest p), drop-length p, take-length p)

-- The three cases in which the stream ID, and the offset that may follow it, lie in the payload.
stream-layout_id :
    (t : ℕ) (p : List ℕ)
    → All IsByte p
    → IsWhole p
    → decode_stream_frame (t ∷ p) ≡ result (t ∷ p) (read_stream t p)
unfolding decode_stream_frame read_stream rest read_varint
stream-layout_id t p h w = elim (Bool-cases (t / 4 % 2 == 1)) [
  | inl off ↦ ground (
    arith,
    varint_cases (rest p) w.bytes,
    varint_cases (rest (rest p)),
    length-drop (value (rest (rest p))) (rest (rest (rest p))),
    drop-length (rest (rest p)),
    take-length (rest (rest p)),
  )
  | inr off ↦ ground (
    arith,
    varint_cases (rest p) w.bytes,
    length-drop (value (rest p)) (rest (rest p)),
    drop-length (rest p),
    take-length (rest p),
  )
]

pub stream-layout :
    (t : ℕ) (p : List ℕ)
    → All IsByte p
    → decode_stream_frame (t ∷ p) ≡ result (t ∷ p) (read_stream t p)
unfolding decode_stream_frame read_stream read_varint
stream-layout t p h = elim (varint_cases p h) [
  | inl cut ↦ ground arith
  | inr whole ↦ stream-layout_id t p h whole
]
