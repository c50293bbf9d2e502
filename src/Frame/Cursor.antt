-- ===== src/Frame/Cursor.antt =====
-- The steps that the frame decoders of lib/ngtcp2_pkt.c are made of.
use zngtcp.Base.{
  ℕ, zero, suc, ◌+◌, ◌-◌, List, Outcome, ok, fault, ◌>>=◌, ◌>>◌, guard, assert, ◌==◌,
  frame_encoding, leb, if◌then◌else◌, length, take, drop,
}
use zngtcp.Conv.{get_uvarintlen}

-- `p + n`, a pointer that may stand at the end of the buffer and not behind it.
unfoldable pub advance : ℕ → List ℕ → Outcome (List ℕ)
advance n p = if leb n (length p) then ok (drop n p) else fault

-- The `n` bytes at `p`, as a pointer to them or a copy.
unfoldable pub bytes_at : ℕ → List ℕ → Outcome (List ℕ)
bytes_at n p = if leb n (length p) then ok (take n p) else fault

-- `if (payloadlen < len) return NGTCP2_ERR_FRAME_ENCODING;`
unfoldable pub require : ℕ → ℕ → Outcome (Unit {0})
require payloadlen len = guard (leb len payloadlen) frame_encoding

-- `n = ngtcp2_get_uvarintlen(p); len += n - 1; if (payloadlen < len) return …;`
-- The result is `n` and the new `len`.
unfoldable pub measure : ℕ → ℕ → List ℕ → Outcome (ℕ × ℕ)
unfolding require
measure payloadlen len p = do
  n ← get_uvarintlen p
  let len' = len + n - 1
  require payloadlen len'
  ok (n, len')

-- The same, and `p += n;`. The result is the new `len` and the new `p`.
unfoldable pub skip : ℕ → ℕ → List ℕ → Outcome (ℕ × List ℕ)
unfolding measure advance
skip payloadlen len p = do (n, len') ← measure payloadlen len p; p' ← advance n p; ok (len', p')

-- `for (i = 0; i < count; ++i)` over that.
unfoldable pub skip_all : ℕ → ℕ → ℕ → List ℕ → Outcome (ℕ × List ℕ)
skip_all zero payloadlen len p = ok (len, p)
skip_all (suc count) payloadlen len p = do
  (len', p') ← skip payloadlen len p
  skip_all count payloadlen len' p'

-- `assert((size_t)(p - payload) == len); return len;`
unfoldable pub finish {ℓ} : {A : Type ℓ} → List ℕ → List ℕ → ℕ → A → Outcome (A × ℕ)
finish payload p len fr = do assert (length p + len == length payload); ok (fr, len)

-- `assert((size_t)(p - out) == len); return len;`, where `bytes` are what stands between `out` and `p`
unfoldable pub write : ℕ → List ℕ → Outcome (List ℕ)
write len bytes = do assert (length bytes == len); ok bytes
