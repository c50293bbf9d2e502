-- ===== src/Packet/StatelessReset.antt =====
-- Stateless Reset packets of lib/ngtcp2_pkt.c. A destination is a buffer that `pkt_validate_tx_dest`
-- takes, with `room` bytes; a token is the list of its 16 bytes.
use zngtcp.Base.{
  ℕ, zero, suc, min, ◌+◌, ◌-◌, ◌/◌, ◌%◌, ◌≤◌, ◌<◌, ◌≡◌, refl, ap, List, [], ◌∷◌, ◌++◌, Outcome, ok,
  fault, ◌>>=◌, ◌>>◌, guard, invalid_argument, nobuf, leb, ◌==◌, length, take, arith, bit_and,
  bit_or, all_below-lt, append-nil, length-append, length-take, take-length_append,
  drop-length_append,
}
use zngtcp.Frame.{tokenlen}
use zngtcp.Frame.Cursor.{bytes_at, advance}

-- NGTCP2_MIN_STATELESS_RESET_RANDLEN
abbrev pub min_stateless_reset_randlen : ℕ
min_stateless_reset_randlen = 5

pub record StatelessReset : Type 0 where
  pub token : List ℕ
  pub rand : List ℕ

-- `*base = (uint8_t)((*base & 0x3FU) | 0x40U);`
unfoldable pub fix_first : List ℕ → Outcome (List ℕ)
fix_first [] = fault
fix_first (b ∷ p) = ok (bit_or (bit_and b 0x3f) 0x40 % 256 ∷ p)

unfoldable pub write_stateless_reset2 : ℕ → List ℕ → List ℕ → Outcome (List ℕ)
unfolding fix_first bytes_at
write_stateless_reset2 room token rand = do
  guard (leb (min_stateless_reset_randlen + tokenlen) room) nobuf
  guard (leb min_stateless_reset_randlen (length rand)) invalid_argument
  let randlen = min (room - tokenlen) (length rand)
  p ← bytes_at randlen rand
  fix_first (p ++ token)

unfoldable pub decode_stateless_reset : List ℕ → Outcome StatelessReset
unfolding bytes_at advance
decode_stateless_reset payload = do
  guard (leb (min_stateless_reset_randlen + tokenlen) (length payload)) invalid_argument
  let randlen = length payload - tokenlen
  rand ← bytes_at randlen payload
  p ← advance randlen payload
  token ← bytes_at tokenlen p
  ok (record { token = token; rand = rand })

take-min : (n : ℕ) (p : List ℕ) → take (min n (length p)) p ≡ take n p
take-min zero p = ground arith
take-min (suc n) [] = ground arith
take-min (suc n) (b ∷ p) =
    let same : min (suc n) (suc (length p)) ≡ suc (min n (length p)) = omega arith in
    rw (same) (ap (◌∷◌ b) (take-min n p))

-- The bits of a short header
fixed_first : (b : ℕ) → b < 256 → bit_or (bit_and b 0x3f) 0x40 % 256 / 64 ≡ 1
fixed_first b small =
    let fixed = all_below-lt (λ b. bit_or (bit_and b 0x3f) 0x40 % 256 / 64 == 1) 256 refl b small in
    ground (arith, fixed)

decode_stateless_reset-tagged :
    (rand token : List ℕ)
    → length token ≡ 16
    → 5 ≤ length rand
    → decode_stateless_reset (rand ++ token) ≡ ok (record { token = token; rand = rand })
unfolding decode_stateless_reset
decode_stateless_reset-tagged rand token size least =
    let whole = length-append rand token in
    let n : length (rand ++ token) - 16 ≡ length rand = omega (arith, whole, size) in
    let all : take 16 token ≡ token = cc (size, append-nil token, take-length_append token []) in
    ground (
      arith,
      whole,
      n,
      size,
      least,
      take-length_append rand token,
      drop-length_append rand token,
      all,
    )

-- With room for 21 bytes and 5 random bytes at least, a packet is written that has the bits of a short
-- header and as many of the random bytes as fit; `ngtcp2_pkt_decode_stateless_reset` reads the token
-- from it.
pub decode-write_stateless_reset :
    (room b : ℕ) (rand token : List ℕ)
    → length token ≡ 16
    → 21 ≤ room
    → 4 ≤ length rand
    → b < 256
    → (first : ℕ) × (p : List ℕ) × (write_stateless_reset2 room token (b ∷ rand)
        ≡ ok (first ∷ (p ++ token)))
      × (first / 64 ≡ 1)
      × (length (first ∷ (p ++ token)) ≤ room)
      × (p ≡ take (room - 17) rand)
      × (decode_stateless_reset (first ∷ (p ++ token))
          ≡ ok (record { token = token; rand = first ∷ p }))
unfolding write_stateless_reset2
decode-write_stateless_reset room b rand token size enough least small =
    let n = min (room - 17) (length rand) in
    let cut : min (room - 16) (suc (length rand)) ≡ suc n = omega (arith, enough) in
    let p = take n rand in
    let taken = length-take n rand in
    let first = bit_or (bit_and b 0x3f) 0x40 % 256 in
    (
      first,
      p,
      ground (arith, cut, enough, least),
      fixed_first b small,
      omega (arith, taken, length-append p token, size, enough),
      take-min (room - 17) rand,
      decode_stateless_reset-tagged (first ∷ p) token size (omega (arith, taken, least, enough)),
    )
