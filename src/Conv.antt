-- ===== src/Conv.antt =====
-- lib/ngtcp2_conv.c: integers in network byte order and QUIC variable-length integers.
-- A pointer into a buffer is the list of the bytes from it to the end of the buffer. A reader
-- returns the value and the advanced pointer, and faults where it would read past the end; a writer
-- returns the bytes that it stores.
pub mod Read
pub mod Bytes
pub mod Write
pub mod Examples
use zngtcp.Base.{
  ℕ, zero, suc, ◌+◌, ◌*◌, ◌/◌, ◌%◌, ◌^◌, ◌<◌, List, [], ◌∷◌, ◌++◌, Outcome, ok, fault, ◌>>=◌, ◌>>◌,
  assert, ltb, if◌then◌else◌, bit_or,
}

abbrev pub IsByte : ℕ → Type 0
IsByte b = b < 256

-- The largest variable-length integer, and one more.
abbrev pub varint_limit : ℕ
varint_limit = 2 ^ 62

-- `*p`
unfoldable pub peek : List ℕ → Outcome ℕ
peek [] = fault
peek (b ∷ p) = ok b

unfoldable pub get_uint16be : List ℕ → Outcome (ℕ × List ℕ)
get_uint16be (a ∷ b ∷ p) = ok (a * 256 + b, p)
get_uint16be _ = fault

unfoldable pub get_uint24be : List ℕ → Outcome (ℕ × List ℕ)
get_uint24be (a ∷ b ∷ c ∷ p) = ok ((a * 256 + b) * 256 + c, p)
get_uint24be _ = fault

unfoldable pub get_uint32be : List ℕ → Outcome (ℕ × List ℕ)
get_uint32be (a ∷ b ∷ c ∷ d ∷ p) = ok (((a * 256 + b) * 256 + c) * 256 + d, p)
get_uint32be _ = fault

unfoldable pub get_uint64be : List ℕ → Outcome (ℕ × List ℕ)
unfolding get_uint32be
get_uint64be p = do
  (hi, p') ← get_uint32be p
  (lo, p'') ← get_uint32be p'
  ok (hi * 2 ^ 32 + lo, p'')

-- The `switch (*p >> 6)` of `ngtcp2_get_uvarint`; a case above 3 is `ngtcp2_unreachable`.
unfoldable pub get_uvarint_by : ℕ → List ℕ → Outcome (ℕ × List ℕ)
unfolding peek get_uint16be get_uint32be get_uint64be
get_uvarint_by zero [] = fault
get_uvarint_by zero (b ∷ p) = ok (b, p)
get_uvarint_by (suc zero) p = do (n, q) ← get_uint16be p; ok (n % 2 ^ 14, q)
get_uvarint_by (suc (suc zero)) p = do (n, q) ← get_uint32be p; ok (n % 2 ^ 30, q)
get_uvarint_by (suc (suc (suc zero))) p = do (n, q) ← get_uint64be p; ok (n % 2 ^ 62, q)
get_uvarint_by (suc (suc (suc (suc k)))) p = fault

unfoldable pub get_uvarint : List ℕ → Outcome (ℕ × List ℕ)
unfolding get_uvarint_by peek
get_uvarint p = do b ← peek p; get_uvarint_by (b / 64) p

unfoldable pub get_uvarintlen : List ℕ → Outcome ℕ
unfolding peek
get_uvarintlen p = do b ← peek p; ok (2 ^ (b / 64))

unfoldable pub get_pkt_num : List ℕ → ℕ → Outcome ℕ
unfolding peek get_uint16be get_uint24be get_uint32be
get_pkt_num p (suc zero) = peek p
get_pkt_num p (suc (suc zero)) = do (s, _) ← get_uint16be p; ok s
get_pkt_num p (suc (suc (suc zero))) = do (l, _) ← get_uint24be p; ok l
get_pkt_num p (suc (suc (suc (suc zero)))) = do (l, _) ← get_uint32be p; ok l
get_pkt_num p _ = fault

-- The arguments of the writers are converted to the width that is written.
unfoldable pub put_uint16be : ℕ → List ℕ
put_uint16be n = (n / 256 % 256) ∷ (n % 256) ∷ []

unfoldable pub put_uint24be : ℕ → List ℕ
put_uint24be n = (n / 2 ^ 16 % 256) ∷ (n / 256 % 256) ∷ (n % 256) ∷ []

unfoldable pub put_uint32be : ℕ → List ℕ
put_uint32be n = (n / 2 ^ 24 % 256) ∷ (n / 2 ^ 16 % 256) ∷ (n / 256 % 256) ∷ (n % 256) ∷ []

unfoldable pub put_uint64be : ℕ → List ℕ
unfolding put_uint32be
put_uint64be n = put_uint32be (n / 2 ^ 32) ++ put_uint32be n

-- `*p |= flag;` after the integer is written at `p`
unfoldable pub or_first : ℕ → List ℕ → List ℕ
or_first flag [] = []
or_first flag (b ∷ p) = bit_or b flag ∷ p

unfoldable pub put_uvarint : ℕ → Outcome (List ℕ)
unfolding or_first put_uint16be put_uint32be put_uint64be
put_uvarint n =
    if ltb n 64
    then ok ((n % 256) ∷ [])
    else if ltb n 16384
    then ok (or_first 0x40 (put_uint16be n))
    else if ltb n 1073741824
    then ok (or_first 0x80 (put_uint32be n))
    else (do assert (ltb n 4611686018427387904); ok (or_first 0xc0 (put_uint64be n)))

unfoldable pub put_uvarint30 : ℕ → Outcome (List ℕ)
unfolding or_first put_uint32be
put_uvarint30 n = do assert (ltb n 1073741824); ok (or_first 0x80 (put_uint32be n))

unfoldable pub put_pkt_num : ℕ → ℕ → Outcome (List ℕ)
unfolding put_uint16be put_uint24be put_uint32be
put_pkt_num n (suc zero) = ok ((n % 256) ∷ [])
put_pkt_num n (suc (suc zero)) = ok (put_uint16be n)
put_pkt_num n (suc (suc (suc zero))) = ok (put_uint24be n)
put_pkt_num n (suc (suc (suc (suc zero)))) = ok (put_uint32be n)
put_pkt_num n _ = fault

unfoldable pub put_uvarintlen : ℕ → Outcome ℕ
put_uvarintlen n =
    if ltb n 64
    then ok 1
    else if ltb n 16384
    then ok 2
    else if ltb n 1073741824
    then ok 4
    else (do assert (ltb n 4611686018427387904); ok 8)
