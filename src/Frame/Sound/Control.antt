-- ===== src/Frame/Sound/Control.antt =====
-- The decoders of the control frames return what the layouts say.
use zngtcp.Base.{
  ℕ, List, [], ◌∷◌, All, ◌≡◌, refl, inl, inr, ◌+◌, Bool-cases, ltb, leb, length, ◌||◌, arith, drop,
  length-drop,
}
use zngtcp.Conv.{IsByte}
use zngtcp.Conv.Read.{read_varint, value, rest, varint_cases, IsWhole}
use zngtcp.Frame.{Frame}
use zngtcp.Frame.Layout.{
  result, read_one, read_two, read_three, read_path, read_new_token, read_new_connection_id,
  read_connection_close,
}
use zngtcp.Frame.Decode.Control.{
  decode_reset_stream_frame, decode_stop_sending_frame, decode_retire_connection_id_frame,
  decode_path_challenge_frame, decode_path_response_frame, decode_new_token_frame,
  decode_new_connection_id_frame, decode_connection_close_frame,
}

pub reset_stream-layout :
    (t : ℕ) (p : List ℕ)
    → All IsByte p
    → decode_reset_stream_frame (t ∷ p) ≡ result (t ∷ p) (read_three Frame.reset_stream p)
unfolding decode_reset_stream_frame read_three rest read_varint
reset_stream-layout t p h =
    ground (arith, varint_cases p h, varint_cases (rest p), varint_cases (rest (rest p)))

pub stop_sending-layout :
    (t : ℕ) (p : List ℕ)
    → All IsByte p
    → decode_stop_sending_frame (t ∷ p) ≡ result (t ∷ p) (read_two Frame.stop_sending p)
unfolding decode_stop_sending_frame read_two rest read_varint
stop_sending-layout t p h = ground (arith, varint_cases p h, varint_cases (rest p))

pub retire_connection_id-layout :
    (t : ℕ) (p : List ℕ)
    → All IsByte p
    → decode_retire_connection_id_frame (t ∷ p)
      ≡ result (t ∷ p) (read_one Frame.retire_connection_id p)
unfolding decode_retire_connection_id_frame read_one rest read_varint
retire_connection_id-layout t p h = ground (arith, varint_cases p h)

pub path_challenge-layout :
    (t : ℕ) (p : List ℕ)
    → All IsByte p
    → decode_path_challenge_frame (t ∷ p) ≡ result (t ∷ p) (read_path Frame.path_challenge p)
unfolding decode_path_challenge_frame read_path rest read_varint
path_challenge-layout t p h = ground arith

pub path_response-layout :
    (t : ℕ) (p : List ℕ)
    → All IsByte p
    → decode_path_response_frame (t ∷ p) ≡ result (t ∷ p) (read_path Frame.path_response p)
unfolding decode_path_response_frame read_path rest read_varint
path_response-layout t p h = ground arith

pub new_token-layout :
    (t : ℕ) (p : List ℕ)
    → All IsByte p
    → decode_new_token_frame (t ∷ p) ≡ result (t ∷ p) (read_new_token p)
unfolding decode_new_token_frame read_new_token rest read_varint
new_token-layout t p h = ground (arith, varint_cases p h, length-drop (value p) (rest p))

-- `q` is the payload from the length of the connection ID on.
new_connection_id-layout_at :
    (t : ℕ) (p q : List ℕ)
    → IsWhole p
    → IsWhole (rest p)
    → rest (rest p) ≡ q
    → decode_new_connection_id_frame (t ∷ p) ≡ result (t ∷ p) (read_new_connection_id p)
unfolding decode_new_connection_id_frame read_new_connection_id rest read_varint
new_connection_id-layout_at t p [] w w' e = ground arith
new_connection_id-layout_at t p (cil ∷ r) w w' e = elim (Bool-cases (ltb cil 1 || ltb 20 cil)) [
  | inl bad ↦ ground arith
  | inr good ↦ elim (Bool-cases (leb (cil + 16) (length r))) [
    | inl fits ↦ ground (arith, length-drop cil r, length-drop 16 (drop cil r))
    | inr short ↦ elim (Bool-cases (leb 16 (length (drop cil r)))) [
      | inl tail ↦ ground (arith, length-drop cil r)
      | inr no_tail ↦ ground arith
    ]
  ]
]

pub new_connection_id-layout :
    (t : ℕ) (p : List ℕ)
    → All IsByte p
    → decode_new_connection_id_frame (t ∷ p) ≡ result (t ∷ p) (read_new_connection_id p)
unfolding decode_new_connection_id_frame read_new_connection_id rest read_varint
new_connection_id-layout t p h = elim (varint_cases p h) [
  | inl cut ↦ ground arith
  | inr w ↦ elim (varint_cases (rest p) w.bytes) [
    | inl cut ↦ ground arith
    | inr w' ↦ new_connection_id-layout_at t p (rest (rest p)) w w' refl
  ]
]

pub connection_close-layout :
    (t : ℕ) (p : List ℕ)
    → All IsByte p
    → decode_connection_close_frame (t ∷ p) ≡ result (t ∷ p) (read_connection_close t p)
unfolding decode_connection_close_frame read_connection_close rest read_varint
connection_close-layout t p h = ground (
  arith,
  varint_cases p h,
  varint_cases (rest p),
  varint_cases (rest (rest p)),
  length-drop (value (rest p)) (rest (rest p)),
  length-drop (value (rest (rest p))) (rest (rest (rest p))),
)
