-- ===== src/Frame/RoundTrip/Readable.antt =====
-- The layouts read the bytes of a frame, whatever follows it.
use zngtcp.Base.{
  ℕ, zero, suc, ◌≤◌, ◌≡◌, ap, List, ◌∷◌, ◌++◌, some, length, length-append, append_assoc,
  take-length_append, drop-length_append, length-replicate, replicate, arith,
}
use zngtcp.Conv.Write.{encoding, read_varint-encoding}
use zngtcp.Frame.{Frame, Stream, NewConnectionId}
use zngtcp.Frame.Layout.{
  read_one, read_two, read_three, read_bytes, read_byte, read_block, read_new_token, read_path,
  read_cid, read_new_connection_id, padding_run, read_crypto,
}
use zngtcp.Frame.Layout.Whole.{read_padding}
use zngtcp.Frame.Wire.{concat, received}
use zngtcp.Frame.Sendable.{IsVarint}

pub one-reads :
    (make : ℕ → Frame) (a : ℕ) (r : List ℕ)
    → IsVarint a
    → read_one make (encoding a ++ r) ≡ some (make a, r)
unfolding read_one
one-reads make a r h = rw (read_varint-encoding a r h)

pub two-reads :
    (make : ℕ → ℕ → Frame) (a b : ℕ) (r : List ℕ)
    → IsVarint a
    → IsVarint b
    → read_two make ((encoding a ++ encoding b) ++ r) ≡ some (make a b, r)
unfolding read_two
two-reads make a b r h1 h2 = rw (
  append_assoc (encoding a) (encoding b) r,
  read_varint-encoding a (encoding b ++ r) h1,
  read_varint-encoding b r h2,
)

pub three-reads :
    (make : ℕ → ℕ → ℕ → Frame) (a b c : ℕ) (r : List ℕ)
    → IsVarint a
    → IsVarint b
    → IsVarint c
    → read_three make ((encoding a ++ (encoding b ++ encoding c)) ++ r) ≡ some (make a b c, r)
unfolding read_three
three-reads make a b c r h1 h2 h3 = rw (
  append_assoc (encoding a) (encoding b ++ encoding c) r,
  append_assoc (encoding b) (encoding c) r,
  read_varint-encoding a (encoding b ++ (encoding c ++ r)) h1,
  read_varint-encoding b (encoding c ++ r) h2,
  read_varint-encoding c r h3,
)

bytes-reads : (bs r : List ℕ) → read_bytes (length bs) (bs ++ r) ≡ some (bs, r)
unfolding read_bytes
bytes-reads bs r =
    ground (arith, length-append bs r, take-length_append bs r, drop-length_append bs r)

pub block-reads :
    (bs r : List ℕ)
    → IsVarint (length bs)
    → read_block (encoding (length bs) ++ (bs ++ r)) ≡ some (bs, r)
unfolding read_block
block-reads bs r h = rw (read_varint-encoding (length bs) (bs ++ r) h, bytes-reads bs r)

pub new_token-reads :
    (bs r : List ℕ)
    → IsVarint (length bs)
    → read_new_token ((encoding (length bs) ++ bs) ++ r) ≡ some (Frame.new_token bs, r)
unfolding read_new_token
new_token-reads bs r h = rw (append_assoc (encoding (length bs)) bs r, block-reads bs r h)

pub path-reads :
    (make : List ℕ → Frame) (bs r : List ℕ)
    → length bs ≡ 8
    → read_path make (bs ++ r) ≡ some (make bs, r)
unfolding read_path
path-reads make bs r h =
    let e : read_bytes 8 (bs ++ r) ≡ some (bs, r) = rw h at (bytes-reads bs r) in rw e

pub crypto-reads :
    (fr : Stream) (r : List ℕ)
    → IsVarint fr.offset
    → IsVarint (length (concat fr.payload))
    → read_crypto
        ((encoding fr.offset ++ (encoding (length (concat fr.payload)) ++ concat fr.payload)) ++ r)
      ≡ some (received (Frame.crypto fr), r)
unfolding read_crypto received
crypto-reads fr r h1 h2 =
    let bytes = concat fr.payload in
    rw (
      append_assoc (encoding fr.offset) (encoding (length bytes) ++ bytes) r,
      append_assoc (encoding (length bytes)) bytes r,
      read_varint-encoding fr.offset (encoding (length bytes) ++ (bytes ++ r)) h1,
      block-reads bytes r h2,
    )

pub new_connection_id-reads :
    (fr : NewConnectionId) (r : List ℕ)
    → IsVarint fr.seq
    → IsVarint fr.retire_prior_to
    → 1 ≤ length fr.cid
    → length fr.cid ≤ 20
    → length fr.token ≡ 16
    → read_new_connection_id (
        (encoding fr.seq ++ (encoding fr.retire_prior_to ++ (length fr.cid ∷ (fr.cid ++ fr.token))))
        ++ r)
      ≡ some (Frame.new_connection_id fr, r)
unfolding read_new_connection_id read_byte read_cid
new_connection_id-reads fr r h1 h2 h3 h4 h5 =
    let end = length fr.cid ∷ (fr.cid ++ fr.token) in
    let token : read_bytes 16 (fr.token ++ r) ≡ some (fr.token, r) =
      rw h5 at (bytes-reads fr.token r) in
    ground (
      arith,
      append_assoc (encoding fr.seq) (encoding fr.retire_prior_to ++ end) r,
      append_assoc (encoding fr.retire_prior_to) end r,
      append_assoc fr.cid fr.token r,
      read_varint-encoding fr.seq (encoding fr.retire_prior_to ++ (end ++ r)) h1,
      read_varint-encoding fr.retire_prior_to (end ++ r) h2,
      bytes-reads fr.cid (fr.token ++ r),
      token,
    )

pub padding_run-replicate :
    (n : ℕ) (r : List ℕ) → padding_run r ≡ 0 → padding_run (replicate n 0 ++ r) ≡ n
unfolding padding_run
padding_run-replicate zero r h = h
padding_run-replicate (suc n) r h = ap suc (padding_run-replicate n r h)

pub padding-reads :
    (n : ℕ) (r : List ℕ)
    → padding_run r ≡ 0
    → read_padding (replicate n 0 ++ r) ≡ some (Frame.padding (suc n), r)
unfolding read_padding
padding-reads n r h = ground (
  arith,
  padding_run-replicate n r h,
  length-replicate {A = ℕ} n 0,
  drop-length_append (replicate n 0) r,
)
