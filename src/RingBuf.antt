-- ===== src/RingBuf.antt =====
-- lib/ngtcp2_ringbuf.c. A pointer to an element is the index of its slot; the caller stores at it, so
-- the slots are no part of the state. The number of slots, `mask + 1`, is a power of two, which makes
-- `& mask` the remainder.
pub mod Order
pub mod Examples
use zngtcp.Base.{
  ℕ, suc, ◌+◌, ◌-◌, ◌%◌, ◌^◌, Bool, Outcome, ok, ◌>>=◌, ◌>>◌, assert, ltb, leb, ◌==◌, not,
  if◌then◌else◌,
}

pub record RingBuf : Type 0 where
  pub mask : ℕ
  pub first : ℕ
  pub len : ℕ

unfoldable pub buf_init : ℕ → RingBuf
buf_init nmemb = record { mask = nmemb - 1; first = 0; len = 0 }

-- `rb->first - 1` wraps around at 0, where the remainder is that of `mask`.
unfoldable pub push_front : RingBuf → RingBuf × ℕ
push_front rb =
    let first = (rb.first + rb.mask) % (rb.mask + 1) in
    let len = if ltb rb.len (rb.mask + 1) then suc rb.len else rb.len in
    (record rb { first = first; len = len }, first)

unfoldable pub push_back : RingBuf → RingBuf × ℕ
push_back rb =
    let offset = (rb.first + rb.len) % (rb.mask + 1) in
    if rb.len == rb.mask + 1
    then (record rb { first = (rb.first + 1) % (rb.mask + 1) }, offset)
    else (record rb { len = suc rb.len }, offset)

-- `--rb->len` wraps around where there is no element.
unfoldable pub pop_front : RingBuf → RingBuf
pop_front rb = record rb {
  first = (rb.first + 1) % (rb.mask + 1);
  len = (rb.len + 2 ^ 64 - 1) % 2 ^ 64;
}

unfoldable pub pop_back : RingBuf → Outcome RingBuf
pop_back rb = do assert (not (rb.len == 0)); ok (record rb { len = rb.len - 1 })

unfoldable pub resize : RingBuf → ℕ → Outcome RingBuf
resize rb len = do assert (leb len (rb.mask + 1)); ok (record rb { len = len })

unfoldable pub get : RingBuf → ℕ → Outcome ℕ
get rb offset = do assert (ltb offset rb.len); ok ((rb.first + offset) % (rb.mask + 1))

unfoldable pub full : RingBuf → Bool
full rb = rb.len == rb.mask + 1
