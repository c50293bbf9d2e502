-- ===== src/Frame/RoundTrip/Encoded.antt =====
-- The bytes that `ngtcp2_pkt_encode_frame` writes.
use zngtcp.Base.{
  ℕ, ◌≤◌, ◌≡◌, refl, ap, ◌⊎◌, List, [], ◌∷◌, ◌++◌, Outcome, ok, err, nobuf, leb, length,
  length-append, length-replicate, append_assoc, take, arith, if◌then◌else◌,
}
use zngtcp.Conv.Write.{encoding, put_uvarint-encoding, put_uvarintlen-encoding}
use zngtcp.Frame.{Frame, NewConnectionId, ConnectionClose}
use zngtcp.Frame.FrameType
use zngtcp.Frame.Cursor.{write, bytes_at}
use zngtcp.Frame.Encode
use zngtcp.Frame.Wire.{wire, frame_type_wire}
use zngtcp.Frame.Sendable.{IsVarint}

-- All of `bytes`, if there is room for them.
abbrev pub fits : ℕ → List ℕ → Outcome (List ℕ)
fits outlen bytes = if leb (length bytes) outlen then ok bytes else err nobuf

pub reset_stream-wire :
    (outlen i e n : ℕ)
    → IsVarint i
    → IsVarint e
    → IsVarint n
    → Encode.encode_reset_stream_frame outlen i e n ≡ fits outlen (wire (Frame.reset_stream i e n))
unfolding Encode.encode_reset_stream_frame write wire
reset_stream-wire outlen i e n h1 h2 h3 = ground (
  arith,
  put_uvarint-encoding i h1,
  put_uvarintlen-encoding i h1,
  put_uvarint-encoding e h2,
  put_uvarintlen-encoding e h2,
  put_uvarint-encoding n h3,
  put_uvarintlen-encoding n h3,
  length-append (encoding i) (encoding e ++ encoding n),
  length-append (encoding e) (encoding n),
  append_assoc (encoding i) (encoding e) (encoding n),
)

pub stop_sending-wire :
    (outlen i n : ℕ)
    → IsVarint i
    → IsVarint n
    → Encode.encode_stop_sending_frame outlen i n ≡ fits outlen (wire (Frame.stop_sending i n))
unfolding Encode.encode_stop_sending_frame write wire
stop_sending-wire outlen i n h1 h2 = ground (
  arith,
  put_uvarint-encoding i h1,
  put_uvarintlen-encoding i h1,
  put_uvarint-encoding n h2,
  put_uvarintlen-encoding n h2,
  length-append (encoding i) (encoding n),
)

pub max_stream_data-wire :
    (outlen i n : ℕ)
    → IsVarint i
    → IsVarint n
    → Encode.encode_max_stream_data_frame outlen i n
      ≡ fits outlen (wire (Frame.max_stream_data i n))
unfolding Encode.encode_max_stream_data_frame write wire
max_stream_data-wire outlen i n h1 h2 = ground (
  arith,
  put_uvarint-encoding i h1,
  put_uvarintlen-encoding i h1,
  put_uvarint-encoding n h2,
  put_uvarintlen-encoding n h2,
  length-append (encoding i) (encoding n),
)

pub stream_data_blocked-wire :
    (outlen i n : ℕ)
    → IsVarint i
    → IsVarint n
    → Encode.encode_stream_data_blocked_frame outlen i n
      ≡ fits outlen (wire (Frame.stream_data_blocked i n))
unfolding Encode.encode_stream_data_blocked_frame write wire
stream_data_blocked-wire outlen i n h1 h2 = ground (
  arith,
  put_uvarint-encoding i h1,
  put_uvarintlen-encoding i h1,
  put_uvarint-encoding n h2,
  put_uvarintlen-encoding n h2,
  length-append (encoding i) (encoding n),
)

pub max_data-wire :
    (outlen n : ℕ)
    → IsVarint n
    → Encode.encode_max_data_frame outlen n ≡ fits outlen (wire (Frame.max_data n))
unfolding Encode.encode_max_data_frame write wire
max_data-wire outlen n h1 = ground (arith, put_uvarint-encoding n h1, put_uvarintlen-encoding n h1)

pub data_blocked-wire :
    (outlen n : ℕ)
    → IsVarint n
    → Encode.encode_data_blocked_frame outlen n ≡ fits outlen (wire (Frame.data_blocked n))
unfolding Encode.encode_data_blocked_frame write wire
data_blocked-wire outlen n h1 =
    ground (arith, put_uvarint-encoding n h1, put_uvarintlen-encoding n h1)

pub retire_connection_id-wire :
    (outlen n : ℕ)
    → IsVarint n
    → Encode.encode_retire_connection_id_frame outlen n
      ≡ fits outlen (wire (Frame.retire_connection_id n))
unfolding Encode.encode_retire_connection_id_frame write wire
retire_connection_id-wire outlen n h1 =
    ground (arith, put_uvarint-encoding n h1, put_uvarintlen-encoding n h1)

pub max_streams-wire :
    (outlen t n : ℕ)
    → (t ≡ FrameType.max_streams_bidi) ⊎ (t ≡ FrameType.max_streams_uni)
    → IsVarint n
    → Encode.encode_max_streams_frame outlen t n ≡ fits outlen (wire (Frame.max_streams t n))
unfolding Encode.encode_max_streams_frame write wire
max_streams-wire outlen t n h1 h2 =
    ground (arith, put_uvarint-encoding n h2, put_uvarintlen-encoding n h2)

pub streams_blocked-wire :
    (outlen t n : ℕ)
    → (t ≡ FrameType.streams_blocked_bidi) ⊎ (t ≡ FrameType.streams_blocked_uni)
    → IsVarint n
    → Encode.encode_streams_blocked_frame outlen t n
      ≡ fits outlen (wire (Frame.streams_blocked t n))
unfolding Encode.encode_streams_blocked_frame write wire
streams_blocked-wire outlen t n h1 h2 =
    ground (arith, put_uvarint-encoding n h2, put_uvarintlen-encoding n h2)

pub padding-wire :
    (outlen n : ℕ) → Encode.encode_padding_frame outlen n ≡ fits outlen (wire (Frame.padding n))
unfolding Encode.encode_padding_frame wire
padding-wire outlen n = ground (arith, length-replicate {A = ℕ} n 0)

pub new_token-wire :
    (outlen : ℕ) (token : List ℕ)
    → 1 ≤ length token
    → IsVarint (length token)
    → Encode.encode_new_token_frame outlen token ≡ fits outlen (wire (Frame.new_token token))
unfolding Encode.encode_new_token_frame write wire
new_token-wire outlen token h1 h2 = ground (
  arith,
  put_uvarint-encoding (length token) h2,
  put_uvarintlen-encoding (length token) h2,
  length-append (encoding (length token)) token,
)

take-all {ℓ} : {A : Type ℓ} (xs : List A) → take (length xs) xs ≡ xs
take-all [] = refl
take-all (x ∷ xs) = ap (◌∷◌ x) (take-all xs)

pub path_challenge-wire :
    (outlen : ℕ) (bytes : List ℕ)
    → length bytes ≡ 8
    → Encode.encode_path_challenge_frame outlen bytes
      ≡ fits outlen (wire (Frame.path_challenge bytes))
unfolding Encode.encode_path_challenge_frame write bytes_at wire
path_challenge-wire outlen bytes h = ground (arith, take-all bytes)

pub path_response-wire :
    (outlen : ℕ) (bytes : List ℕ)
    → length bytes ≡ 8
    → Encode.encode_path_response_frame outlen bytes
      ≡ fits outlen (wire (Frame.path_response bytes))
unfolding Encode.encode_path_response_frame write bytes_at wire
path_response-wire outlen bytes h = ground (arith, take-all bytes)

pub new_connection_id-wire :
    (outlen : ℕ) (fr : NewConnectionId)
    → IsVarint fr.seq
    → IsVarint fr.retire_prior_to
    → length fr.cid ≤ 20
    → length fr.token ≡ 16
    → Encode.encode_new_connection_id_frame outlen fr
      ≡ fits outlen (wire (Frame.new_connection_id fr))
unfolding Encode.encode_new_connection_id_frame write bytes_at wire
new_connection_id-wire outlen fr h1 h2 h3 h4 = ground (
  arith,
  put_uvarint-encoding fr.seq h1,
  put_uvarintlen-encoding fr.seq h1,
  put_uvarint-encoding fr.retire_prior_to h2,
  put_uvarintlen-encoding fr.retire_prior_to h2,
  take-all fr.token,
  length-append (encoding fr.seq)
      (encoding fr.retire_prior_to ++ (length fr.cid ∷ (fr.cid ++ fr.token))),
  length-append (encoding fr.retire_prior_to) (length fr.cid ∷ (fr.cid ++ fr.token)),
  length-append fr.cid fr.token,
)

pub connection_close-wire :
    (outlen : ℕ) (fr : ConnectionClose)
    → (fr.type ≡ FrameType.connection_close) ⊎ (fr.type ≡ FrameType.connection_close_app)
    → IsVarint fr.error_code
    → IsVarint fr.frame_type
    → IsVarint (length fr.reason)
    → Encode.encode_connection_close_frame outlen fr
      ≡ fits outlen (wire (Frame.connection_close fr))
unfolding Encode.encode_connection_close_frame Encode.put_frame_type Encode.put_frame_typelen write
    wire frame_type_wire
connection_close-wire outlen fr h1 h2 h3 h4 = ground (
  arith,
  put_uvarint-encoding fr.error_code h2,
  put_uvarintlen-encoding fr.error_code h2,
  put_uvarint-encoding fr.frame_type h3,
  put_uvarintlen-encoding fr.frame_type h3,
  put_uvarint-encoding (length fr.reason) h4,
  put_uvarintlen-encoding (length fr.reason) h4,
  length-append (encoding fr.error_code)
      (frame_type_wire fr ++ (encoding (length fr.reason) ++ fr.reason)),
  length-append (frame_type_wire fr) (encoding (length fr.reason) ++ fr.reason),
  length-append (encoding (length fr.reason)) fr.reason,
)
