-- ===== src/Frame/Examples.antt =====
-- A STREAM frame of three bytes behind a gap, sent in two vectors, with a PING behind it.
use zngtcp.Base.{
  ℕ, ◌≤◌, ◌≡◌, refl, ◌⊎◌, List, [], ◌∷◌, ◌++◌, none, true, ok, err, frame_encoding, length, All,
  arith,
}
use zngtcp.Conv.{IsByte}
use zngtcp.Conv.Bytes.{are_bytes, are_bytes_sound}
use zngtcp.Frame.{Frame, Stream}
use zngtcp.Frame.Decode.{decode}
use zngtcp.Frame.Encode.{encode}
use zngtcp.Frame.Layout.{result}
use zngtcp.Frame.Layout.Whole.{read_frame}
use zngtcp.Frame.Wire.{concat, data_of, wire, received}
use zngtcp.Frame.Sendable.{Sendable}
use zngtcp.Frame.Sound.Whole.{decode-read_frame}
use zngtcp.Frame.Sound.Progress.{decode_takes}
use zngtcp.Frame.RoundTrip.Encoded.{fits}
use zngtcp.Frame.RoundTrip.Whole.{encode-wire, decode-encode}

abbrev two_vectors : Frame
two_vectors = Frame.stream (record {
  flags = 0;
  fin = true;
  stream_id = 4;
  offset = 1000;
  payload = (7 ∷ []) ∷ (8 ∷ 9 ∷ []) ∷ [];
  txbuf = none;
})

abbrev ping_bytes : List ℕ
ping_bytes = 1 ∷ []

abbrev frame_bytes : List ℕ
frame_bytes = 0x0f ∷ 0x04 ∷ 0x43 ∷ 0xe8 ∷ 0x03 ∷ 7 ∷ 8 ∷ 9 ∷ []

-- Its length field says 4 and three bytes follow.
abbrev cut_short : List ℕ
cut_short = 0x0f ∷ 0x04 ∷ 0x43 ∷ 0xe8 ∷ 0x04 ∷ 7 ∷ 8 ∷ 9 ∷ []

ping_bytes-IsByte : All IsByte ping_bytes
unfolding are_bytes
ping_bytes-IsByte = are_bytes_sound ping_bytes refl

frame_bytes-IsByte : All IsByte frame_bytes
unfolding are_bytes
frame_bytes-IsByte = are_bytes_sound frame_bytes refl

cut_short-IsByte : All IsByte cut_short
unfolding are_bytes
cut_short-IsByte = are_bytes_sound cut_short refl

two_vectors-Sendable : Sendable two_vectors ping_bytes
unfolding zngtcp.Frame.Wire.concat zngtcp.Frame.Encode.Data.all_nonempty are_bytes
two_vectors-Sendable =
    (omega arith, omega arith, (refl, (are_bytes_sound (7 ∷ 8 ∷ 9 ∷ []) refl, omega arith)))

encode-two_vectors : encode 16 two_vectors ≡ ok frame_bytes
unfolding encode zngtcp.Frame.Encode.Data.encode_stream_frame zngtcp.Conv.put_uvarintlen
    zngtcp.Conv.put_uvarint
encode-two_vectors = refl

decode-read_frame_example : decode cut_short ≡ result cut_short (read_frame cut_short)
decode-read_frame_example = decode-read_frame cut_short cut_short-IsByte

decode_takes_example :
    (decode frame_bytes ≡ err frame_encoding)
    ⊎ ((fr : Frame) × (n : ℕ) × (decode frame_bytes ≡ ok (fr, n))
        × (1 ≤ n)
        × (n ≤ length frame_bytes))
decode_takes_example = decode_takes frame_bytes frame_bytes-IsByte

encode-wire_example : encode 4 two_vectors ≡ fits 4 (wire two_vectors)
encode-wire_example = encode-wire 4 two_vectors ping_bytes two_vectors-Sendable

decode-encode_example :
    decode (frame_bytes ++ ping_bytes) ≡ ok (received two_vectors, length frame_bytes)
decode-encode_example =
    decode-encode 16 two_vectors ping_bytes two_vectors-Sendable ping_bytes-IsByte
      encode-two_vectors
