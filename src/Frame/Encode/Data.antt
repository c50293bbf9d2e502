-- ===== src/Frame/Encode/Data.antt =====
-- The encoders of the frames in lib/ngtcp2_pkt.c that carry data: STREAM, CRYPTO and DATAGRAM.
use zngtcp.Base.{
  ℕ, ◌+◌, ◌%◌, List, [], ◌∷◌, ◌++◌, Outcome, ok, ◌>>=◌, ◌>>◌, guard, assert, nobuf, leb, ◌==◌, ◌&&◌,
  ◌||◌, not, Bool, true, none, some, length, if◌then◌else◌, bit_or,
}
use zngtcp.Conv.{put_uvarint, put_uvarintlen}
use zngtcp.Frame.{Stream, Datagram}
use zngtcp.Frame.FrameType
use zngtcp.Frame.Cursor.{write}

-- `ngtcp2_vec_len`: the sum of the lengths
unfoldable pub vec_len : List (List ℕ) → ℕ
vec_len [] = 0
vec_len (v ∷ vs) = length v + vec_len vs

-- The loop that copies one vector behind the other.
unfoldable pub copy_vecs : List (List ℕ) → List ℕ
copy_vecs [] = []
copy_vecs (v ∷ vs) = v ++ copy_vecs vs

-- `assert(fr->data[i].len);` in that loop of the encoder of STREAM frames
unfoldable pub all_nonempty : List (List ℕ) → Bool
all_nonempty [] = true
all_nonempty (v ∷ vs) = not (length v == 0) && all_nonempty vs

-- The flags that the type byte of a STREAM frame gets, LEN always.
unfoldable pub stream_flags : Stream → ℕ
stream_flags fr =
    let flags = if fr.fin then bit_or 2 1 else 2 in if fr.offset == 0 then flags else bit_or flags 4

unfoldable pub stream_datalen : Stream → ℕ
unfolding vec_len
stream_datalen fr = elim fr.txbuf [ none ↦ vec_len fr.payload | some b ↦ length b ]

unfoldable pub stream_bytes : Stream → Outcome (List ℕ)
unfolding copy_vecs all_nonempty
stream_bytes fr = elim fr.txbuf [
  | none ↦ do assert (all_nonempty fr.payload); ok (copy_vecs fr.payload)
  | some b ↦ ok b
]

unfoldable pub put_offsetlen : Stream → Outcome ℕ
put_offsetlen fr = if fr.offset == 0 then ok 0 else put_uvarintlen fr.offset

unfoldable pub put_offset : Stream → Outcome (List ℕ)
put_offset fr = if fr.offset == 0 then ok [] else put_uvarint fr.offset

unfoldable pub encode_stream_frame : ℕ → Stream → Outcome (List ℕ)
unfolding write stream_flags stream_datalen stream_bytes put_offsetlen put_offset
encode_stream_frame outlen fr = do
  n1 ← put_offsetlen fr
  n2 ← put_uvarintlen fr.stream_id
  let datalen = stream_datalen fr
  n3 ← put_uvarintlen datalen
  let len = 1 + n1 + n2 + n3 + datalen
  guard (leb len outlen) nobuf
  b1 ← put_uvarint fr.stream_id
  b2 ← put_offset fr
  b3 ← put_uvarint datalen
  bytes ← stream_bytes fr
  write len (bit_or (stream_flags fr) FrameType.stream ∷ (b1 ++ (b2 ++ (b3 ++ bytes))))

unfoldable pub encode_crypto_frame : ℕ → Stream → Outcome (List ℕ)
unfolding write vec_len copy_vecs
encode_crypto_frame outlen fr = do
  n1 ← put_uvarintlen fr.offset
  let datalen = vec_len fr.payload
  n2 ← put_uvarintlen datalen
  let len = 1 + n1 + n2 + datalen
  guard (leb len outlen) nobuf
  b1 ← put_uvarint fr.offset
  b2 ← put_uvarint datalen
  write len (FrameType.crypto ∷ (b1 ++ (b2 ++ copy_vecs fr.payload)))

unfoldable pub encode_datagram_frame : ℕ → Datagram → Outcome (List ℕ)
unfolding write vec_len copy_vecs
encode_datagram_frame outlen fr = do
  let datalen = vec_len fr.payload
  n ← if fr.type == FrameType.datagram then ok 0 else put_uvarintlen datalen
  let len = 1 + n + datalen
  assert (fr.type == FrameType.datagram || fr.type == FrameType.datagram_len)
  guard (leb len outlen) nobuf
  b ← if fr.type == FrameType.datagram_len then put_uvarint datalen else ok []
  write len ((fr.type % 256) ∷ (b ++ copy_vecs fr.payload))
