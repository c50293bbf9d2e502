-- ===== src/Conv/Write.antt =====
-- `ngtcp2_put_uvarint`: the bytes that it writes, their number, and that they read back.
use zngtcp.Base.{
  ℕ, suc, zero, ◌+◌, ◌/◌, ◌%◌, ◌^◌, ◌≤◌, ◌<◌, ◌≡◌, refl, List, [], ◌∷◌, ◌++◌, some, ok, length, All,
  arith, ltb, if◌then◌else◌, or_0x40, or_0x80, or_0xc0,
}
use zngtcp.Conv.{
  IsByte, varint_limit, put_uvarint, put_uvarintlen, get_uvarint, get_uvarintlen, put_pkt_num,
  get_pkt_num,
}
use zngtcp.Conv.Read.{read_varint, get_uvarint-read_varint}

-- The shortest of the four forms of RFC 9000, section 16, that holds `n`.
unfoldable pub encoding : ℕ → List ℕ
encoding n =
    if ltb n 64
    then n ∷ []
    else if ltb n 16384
    then (n / 256 + 64) ∷ (n % 256) ∷ []
    else if ltb n 1073741824
    then (n / 2 ^ 24 + 128) ∷ (n / 2 ^ 16 % 256) ∷ (n / 256 % 256) ∷ (n % 256) ∷ []
    else (n / 2 ^ 56 + 192)
      ∷ (n / 2 ^ 48 % 256)
      ∷ (n / 2 ^ 40 % 256)
      ∷ (n / 2 ^ 32 % 256)
      ∷ (n / 2 ^ 24 % 256)
      ∷ (n / 2 ^ 16 % 256)
      ∷ (n / 256 % 256)
      ∷ (n % 256)
      ∷ []

pub encoding-IsByte : (n : ℕ) → n < varint_limit → All IsByte (encoding n)
unfolding encoding
encoding-IsByte n h = ground arith

pub put_uvarint-encoding : (n : ℕ) → n < varint_limit → put_uvarint n ≡ ok (encoding n)
unfolding put_uvarint encoding
put_uvarint-encoding n h = ground (
  arith,
  or_0x40 (n / 256 % 256),
  or_0x80 (n / 2 ^ 24 % 256),
  or_0xc0 (n / 2 ^ 32 / 2 ^ 24 % 256),
)

pub put_uvarintlen-encoding :
    (n : ℕ) → n < varint_limit → put_uvarintlen n ≡ ok (length (encoding n))
unfolding put_uvarintlen encoding
put_uvarintlen-encoding n h = ground arith

pub read_varint-encoding :
    (n : ℕ) (r : List ℕ) → n < varint_limit → read_varint (encoding n ++ r) ≡ some (n, r)
unfolding read_varint encoding
read_varint-encoding n r h = ground arith

pub All-append : (p q : List ℕ) → All IsByte p → All IsByte q → All IsByte (p ++ q)
All-append [] q hp hq = hq
All-append (b ∷ p) q hp hq = (hp.0, All-append p q hp.1 hq)

pub get_uvarint-encoding :
    (n : ℕ) (r : List ℕ)
    → n < varint_limit
    → All IsByte r
    → get_uvarint (encoding n ++ r) ≡ ok (n, r)
get_uvarint-encoding n r h hr = rw (
  get_uvarint-read_varint _ (All-append (encoding n) r (encoding-IsByte n h) hr),
  read_varint-encoding n r h,
)

pub get_uvarintlen-encoding :
    (n : ℕ) (r : List ℕ)
    → n < varint_limit
    → get_uvarintlen (encoding n ++ r) ≡ ok (length (encoding n))
unfolding get_uvarintlen encoding
get_uvarintlen-encoding n r h = ground arith

-- The low bytes of a packet number are read back from what `ngtcp2_put_pkt_num` wrote, for each of
-- the four lengths that a packet header can announce.
pub get_pkt_num-put_pkt_num :
    (n len : ℕ) (r : List ℕ)
    → 1 ≤ len
    → len ≤ 4
    → (bs : List ℕ) × (put_pkt_num n len ≡ ok bs)
      × (length bs ≡ len)
      × (get_pkt_num (bs ++ r) len ≡ ok (n % 256 ^ len))
unfolding get_pkt_num put_pkt_num
get_pkt_num-put_pkt_num n zero r lo hi = absurd (omega arith)
get_pkt_num-put_pkt_num n (suc zero) r lo hi = ((n % 256) ∷ [], refl, refl, refl)
get_pkt_num-put_pkt_num n (suc (suc zero)) r lo hi =
    ((n / 256 % 256) ∷ (n % 256) ∷ [], refl, refl, ground arith)
get_pkt_num-put_pkt_num n (suc (suc (suc zero))) r lo hi =
    ((n / 2 ^ 16 % 256) ∷ (n / 256 % 256) ∷ (n % 256) ∷ [], refl, refl, ground arith)
get_pkt_num-put_pkt_num n (suc (suc (suc (suc zero)))) r lo hi = (
  (n / 2 ^ 24 % 256) ∷ (n / 2 ^ 16 % 256) ∷ (n / 256 % 256) ∷ (n % 256) ∷ [],
  refl,
  refl,
  ground arith,
)
get_pkt_num-put_pkt_num n (suc (suc (suc (suc (suc k))))) r lo hi = absurd (omega arith)
