-- ===== src/Frame/Sound/Progress.antt =====
-- Every frame that is read takes at least its type byte, and no more than the payload.
use zngtcp.Base.{
  ℕ, ◌-◌, ◌*◌, ◌≤◌, ◌≡◌, refl, ◌∙◌, ◌⊎◌, inl, inr, List, [], ◌∷◌, Option, none, some, ok, err,
  frame_encoding, length, drop, length-drop, All, arith, Option-cases, ◌==◌,
}
use zngtcp.Conv.{IsByte}
use zngtcp.Conv.Read.{value, rest, varint_cases, IsWhole}
use zngtcp.Frame.{Frame}
use zngtcp.Frame.FrameType
use zngtcp.Frame.Decode.{Case, case_of, decode}
use zngtcp.Frame.Layout.{
  padding_run, read_one, read_two, read_three, read_path, read_new_connection_id, read_new_token,
  read_connection_close, read_stream, read_crypto, read_datagram, read_ack,
}
use zngtcp.Frame.Layout.Whole.{read_padding, read_case, read_frame}
use zngtcp.Frame.Sound.Acks.Passing.{after-IsByte, read_ranges-after}
use zngtcp.Frame.Sound.Acks.Ecn.{ecn_end-read_ecn}
use zngtcp.Frame.Sound.Whole.{decode-read_frame}

-- What is left behind a field is no longer than what stood before it.
abbrev IsShorter {ℓ} : {A : Type ℓ} → List ℕ → Option (A × List ℕ) → Type 0
IsShorter p none = Unit
IsShorter p (some (_, q)) = length q ≤ length p

one-IsShorter : (make : ℕ → Frame) (p : List ℕ) → All IsByte p → IsShorter p (read_one make p)
unfolding read_one
one-IsShorter make p h = ground (arith, varint_cases p h)

two-IsShorter : (make : ℕ → ℕ → Frame) (p : List ℕ) → All IsByte p → IsShorter p (read_two make p)
unfolding read_two
two-IsShorter make p h = ground (arith, varint_cases p h, varint_cases (rest p))

three-IsShorter :
    (make : ℕ → ℕ → ℕ → Frame) (p : List ℕ) → All IsByte p → IsShorter p (read_three make p)
unfolding read_three
three-IsShorter make p h =
    ground (arith, varint_cases p h, varint_cases (rest p), varint_cases (rest (rest p)))

path-IsShorter : (make : List ℕ → Frame) (p : List ℕ) → IsShorter p (read_path make p)
unfolding read_path
path-IsShorter make p = ground (arith, length-drop 8 p)

new_token-IsShorter : (p : List ℕ) → All IsByte p → IsShorter p (read_new_token p)
unfolding read_new_token
new_token-IsShorter p h = ground (arith, varint_cases p h, length-drop (value p) (rest p))

connection_close-IsShorter :
    (t : ℕ) (p : List ℕ) → All IsByte p → IsShorter p (read_connection_close t p)
unfolding read_connection_close
connection_close-IsShorter t p h = ground (
  arith,
  varint_cases p h,
  varint_cases (rest p),
  varint_cases (rest (rest p)),
  length-drop (value (rest p)) (rest (rest p)),
  length-drop (value (rest (rest p))) (rest (rest (rest p))),
)

stream-IsShorter : (t : ℕ) (p : List ℕ) → All IsByte p → IsShorter p (read_stream t p)
unfolding read_stream
stream-IsShorter t p h = ground (
  arith,
  varint_cases p h,
  varint_cases (rest p),
  varint_cases (rest (rest p)),
  length-drop (value (rest p)) (rest (rest p)),
  length-drop (value (rest (rest p))) (rest (rest (rest p))),
)

crypto-IsShorter : (p : List ℕ) → All IsByte p → IsShorter p (read_crypto p)
unfolding read_crypto
crypto-IsShorter p h =
    ground
      (arith, varint_cases p h, varint_cases (rest p), length-drop (value (rest p)) (rest (rest p)))

datagram-IsShorter : (t : ℕ) (p : List ℕ) → All IsByte p → IsShorter p (read_datagram t p)
unfolding read_datagram
datagram-IsShorter t p h = ground (arith, varint_cases p h, length-drop (value p) (rest p))

cid-IsShorter_at :
    (p q : List ℕ)
    → IsWhole p
    → IsWhole (rest p)
    → rest (rest p) ≡ q
    → IsShorter p (read_new_connection_id p)
unfolding read_new_connection_id
cid-IsShorter_at p [] w w' e = ground arith
cid-IsShorter_at p (cil ∷ r) w w' e = ground (arith, length-drop cil r, length-drop 16 (drop cil r))

cid-IsShorter : (p : List ℕ) → All IsByte p → IsShorter p (read_new_connection_id p)
unfolding read_new_connection_id
cid-IsShorter p h = elim (varint_cases p h) [
  | inl cut ↦ ground arith
  | inr w ↦ elim (varint_cases (rest p) w.bytes) [
    | inl cut ↦ ground arith
    | inr w' ↦ cid-IsShorter_at p (rest (rest p)) w w' refl
  ]
]

ack-IsShorter : (t : ℕ) (p : List ℕ) → All IsByte p → IsShorter p (read_ack t p)
unfolding read_ack
ack-IsShorter t p h = elim (varint_cases p h) [
  | inl cut ↦ ground arith
  | inr w1 ↦ elim (varint_cases (rest p) w1.bytes) [
    | inl cut ↦ ground arith
    | inr w2 ↦ elim (varint_cases (rest (rest p)) w2.bytes) [
      | inl cut ↦ ground arith
      | inr w3 ↦ elim (varint_cases (rest (rest (rest p))) w3.bytes) [
        | inl cut ↦ ground arith
        | inr w4 ↦
            let count = value (rest (rest p)) in
            let q = rest (rest (rest (rest p))) in
            elim (read_ranges-after count q w4.bytes) [
              | inl (cut, unread) ↦ ground arith
              | inr (r, ranges, ends, reads, counted) ↦
                  let (bytes, shorter) = after-IsByte (count * 2) q r w4.bytes ends in
                  ground (arith, ecn_end-read_ecn (t == FrameType.ack_ecn) r bytes)
            ]
      ]
    ]
  ]
]

case-IsShorter : (c : Case) (t : ℕ) (p : List ℕ) → All IsByte p → IsShorter p (read_case c t p)
unfolding read_case
case-IsShorter Case.padding t p h =
    unfold read_padding in omega (arith, length-drop (padding_run p) p)
case-IsShorter Case.reset_stream t p h = three-IsShorter Frame.reset_stream p h
case-IsShorter Case.connection_close t p h = connection_close-IsShorter t p h
case-IsShorter Case.max_data t p h = one-IsShorter Frame.max_data p h
case-IsShorter Case.max_stream_data t p h = two-IsShorter Frame.max_stream_data p h
case-IsShorter Case.max_streams t p h = one-IsShorter (Frame.max_streams t) p h
case-IsShorter Case.ping t p h = omega arith
case-IsShorter Case.data_blocked t p h = one-IsShorter Frame.data_blocked p h
case-IsShorter Case.stream_data_blocked t p h = two-IsShorter Frame.stream_data_blocked p h
case-IsShorter Case.streams_blocked t p h = one-IsShorter (Frame.streams_blocked t) p h
case-IsShorter Case.new_connection_id t p h = cid-IsShorter p h
case-IsShorter Case.stop_sending t p h = two-IsShorter Frame.stop_sending p h
case-IsShorter Case.ack t p h = ack-IsShorter t p h
case-IsShorter Case.path_challenge t p h = path-IsShorter Frame.path_challenge p
case-IsShorter Case.path_response t p h = path-IsShorter Frame.path_response p
case-IsShorter Case.crypto t p h = crypto-IsShorter p h
case-IsShorter Case.new_token t p h = new_token-IsShorter p h
case-IsShorter Case.retire_connection_id t p h = one-IsShorter Frame.retire_connection_id p h
case-IsShorter Case.handshake_done t p h = omega arith
case-IsShorter Case.datagram t p h = datagram-IsShorter t p h
case-IsShorter Case.stream t p h = stream-IsShorter t p h
case-IsShorter Case.unknown t p h = tt

-- A payload of bytes decodes to a frame that takes at least one byte and no more than there are, or
-- to NGTCP2_ERR_FRAME_ENCODING; the decoder has no other outcome.
pub decode_takes :
    (p : List ℕ)
    → All IsByte p
    → (decode p ≡ err frame_encoding)
      ⊎ ((fr : Frame) × (n : ℕ) × (decode p ≡ ok (fr, n)) × (1 ≤ n) × (n ≤ length p))
unfolding read_frame
decode_takes [] h = inl (decode-read_frame [] h)
decode_takes (t ∷ p) h = elim (Option-cases (read_case (case_of t) t p)) [
  | inl unread ↦ inl (decode-read_frame (t ∷ p) h ∙ rw unread)
  | inr ((fr, q), reads) ↦
      let shorter : length q ≤ length p = rw reads at (case-IsShorter (case_of t) t p h.1) in
      inr (
        fr,
        length (t ∷ p) - length q,
        decode-read_frame (t ∷ p) h ∙ rw reads,
        omega arith,
        omega arith,
      )
]
