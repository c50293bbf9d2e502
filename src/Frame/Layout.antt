-- ===== src/Frame/Layout.antt =====
-- The layouts of RFC 9000, section 19, and RFC 9221, read field by field behind the type byte, with no
-- lengths computed in advance. `none` means that the frame is cut short or malformed.
pub mod Whole
use zngtcp.Base.{
  ℕ, suc, zero, ◌+◌, ◌-◌, ◌*◌, ◌/◌, ◌%◌, List, [], ◌∷◌, Bool, true, false, Option, none, some,
  Outcome, ok, err, frame_encoding, ◌==◌, ◌||◌, leb, ltb, if◌then◌else◌, length, take, drop,
}
use zngtcp.Conv.Read.{read_varint}
use zngtcp.Frame.{Frame, AckRange, Ecn}
use zngtcp.Frame.FrameType

infixl 5 ◌>>=◌
abbrev pub ◌>>=◌ {ℓ κ} : {A : Type ℓ} {B : Type κ} → Option A → (A → Option B) → Option B
none >>= f = none
some a >>= f = f a

-- What a decoder must return for the frame that the layout reads, if the payload goes on behind it.
abbrev pub result : List ℕ → Option (Frame × List ℕ) → Outcome (Frame × ℕ)
result payload none = err frame_encoding
result payload (some (fr, q)) = ok (fr, length payload - length q)

unfoldable pub read_one : (ℕ → Frame) → List ℕ → Option (Frame × List ℕ)
read_one make p = do (a, q) ← read_varint p; some (make a, q)

unfoldable pub read_two : (ℕ → ℕ → Frame) → List ℕ → Option (Frame × List ℕ)
read_two make p = do (a, p1) ← read_varint p; (b, q) ← read_varint p1; some (make a b, q)

unfoldable pub read_three : (ℕ → ℕ → ℕ → Frame) → List ℕ → Option (Frame × List ℕ)
read_three make p = do
  (a, p1) ← read_varint p
  (b, p2) ← read_varint p1
  (c, q) ← read_varint p2
  some (make a b c, q)

unfoldable pub read_bytes : ℕ → List ℕ → Option (List ℕ × List ℕ)
read_bytes n p = if leb n (length p) then some (take n p, drop n p) else none

unfoldable pub read_byte : List ℕ → Option (ℕ × List ℕ)
read_byte [] = none
read_byte (b ∷ p) = some (b, p)

-- A length, and as many bytes.
unfoldable pub read_block : List ℕ → Option (List ℕ × List ℕ)
unfolding read_bytes
read_block p = do (n, q) ← read_varint p; read_bytes n q

unfoldable pub read_if : Bool → List ℕ → Option (ℕ × List ℕ)
read_if present p = if present then read_varint p else some (0, p)

unfoldable pub read_new_token : List ℕ → Option (Frame × List ℕ)
unfolding read_block
read_new_token p = do (token, q) ← read_block p; some (Frame.new_token token, q)

unfoldable pub read_path : (List ℕ → Frame) → List ℕ → Option (Frame × List ℕ)
unfolding read_bytes
read_path make p = do (challenge, q) ← read_bytes 8 p; some (make challenge, q)

-- A connection ID has 1 to 20 bytes.
unfoldable pub read_cid : ℕ → List ℕ → Option (List ℕ × List ℕ)
unfolding read_bytes
read_cid cil p = if ltb cil 1 || ltb 20 cil then none else read_bytes cil p

unfoldable pub read_new_connection_id : List ℕ → Option (Frame × List ℕ)
unfolding read_bytes read_byte read_cid
read_new_connection_id p = do
  (seq, p1) ← read_varint p
  (retire_prior_to, p2) ← read_varint p1
  (cil, p3) ← read_byte p2
  (cid, p4) ← read_cid cil p3
  (token, q) ← read_bytes 16 p4
  some (
    Frame.new_connection_id
        (record { seq = seq; retire_prior_to = retire_prior_to; cid = cid; token = token }),
    q,
  )

unfoldable pub read_connection_close : ℕ → List ℕ → Option (Frame × List ℕ)
unfolding read_if read_block
read_connection_close type p = do
  (error_code, p1) ← read_varint p
  (frame_type, p2) ← read_if (type == FrameType.connection_close) p1
  (reason, q) ← read_block p2
  some (
    Frame.connection_close
        (record { type = type; error_code = error_code; frame_type = frame_type; reason = reason }),
    q,
  )

unfoldable pub padding_run : List ℕ → ℕ
padding_run [] = 0
padding_run (zero ∷ p) = suc (padding_run p)
padding_run (suc b ∷ p) = 0

-- A STREAM frame without a length field takes all that is left of the packet.
unfoldable pub read_tail : Bool → List ℕ → Option (List ℕ × List ℕ)
unfolding read_block
read_tail has_length p = if has_length then read_block p else some (p, [])

unfoldable pub one_vec : List ℕ → List (List ℕ)
one_vec [] = []
one_vec (b ∷ bs) = (b ∷ bs) ∷ []

unfoldable pub read_stream : ℕ → List ℕ → Option (Frame × List ℕ)
unfolding read_if read_tail one_vec
read_stream type p = do
  (stream_id, p1) ← read_varint p
  (offset, p2) ← read_if (type / 4 % 2 == 1) p1
  (bytes, q) ← read_tail (type / 2 % 2 == 1) p2
  some (
    Frame.stream (record {
      flags = type / 16 * 16 + type % 8;
      fin = type % 2 == 1;
      stream_id = stream_id;
      offset = offset;
      payload = one_vec bytes;
      txbuf = none;
    }),
    q,
  )

unfoldable pub read_crypto : List ℕ → Option (Frame × List ℕ)
unfolding read_block one_vec
read_crypto p = do
  (offset, p1) ← read_varint p
  (bytes, q) ← read_block p1
  some (
    Frame.crypto (record {
      flags = 0;
      fin = false;
      stream_id = 0;
      offset = offset;
      payload = one_vec bytes;
      txbuf = none;
    }),
    q,
  )

unfoldable pub read_datagram : ℕ → List ℕ → Option (Frame × List ℕ)
unfolding read_tail one_vec
read_datagram type p = do
  (bytes, q) ← read_tail (type == FrameType.datagram_len) p
  some (Frame.datagram (record { type = type; payload = one_vec bytes }), q)

unfoldable pub read_ranges : ℕ → List ℕ → Option (List AckRange × List ℕ)
read_ranges zero p = some ([], p)
read_ranges (suc n) p = do
  (gap, p1) ← read_varint p
  (len, p2) ← read_varint p1
  (ranges, q) ← read_ranges n p2
  some (record { gap = gap; len = len } ∷ ranges, q)

unfoldable pub read_ecn : Bool → List ℕ → Option (Option Ecn × List ℕ)
read_ecn false p = some (none, p)
read_ecn true p = do
  (ect0, p1) ← read_varint p
  (ect1, p2) ← read_varint p1
  (ce, q) ← read_varint p2
  some (some (record { ect0 = ect0; ect1 = ect1; ce = ce }), q)

-- The library keeps the first 32 ranges of an ACK frame.
unfoldable pub read_ack : ℕ → List ℕ → Option (Frame × List ℕ)
unfolding read_ranges read_ecn
read_ack type p = do
  (largest_ack, p1) ← read_varint p
  (ack_delay, p2) ← read_varint p1
  (count, p3) ← read_varint p2
  (first_ack_range, p4) ← read_varint p3
  (ranges, p5) ← read_ranges count p4
  (ecn, q) ← read_ecn (type == FrameType.ack_ecn) p5
  some (
    Frame.ack (record {
      largest_ack = largest_ack;
      ack_delay = ack_delay;
      ack_delay_unscaled = 0;
      ecn = ecn;
      first_ack_range = first_ack_range;
      ranges = take 32 ranges;
    }),
    q,
  )
