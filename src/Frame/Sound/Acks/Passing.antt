-- ===== src/Frame/Sound/Acks/Passing.antt =====
-- Passing over a number of variable-length integers, as the decoder of ACK frames does.
use zngtcp.Base.{
  ℕ, zero, suc, ◌+◌, ◌-◌, ◌*◌, ◌≤◌, ◌<◌, ◌≡◌, refl, ap, inl, inr, ◌⊎◌, List, [], ◌∷◌, Option, none,
  some, Outcome, ok, err, frame_encoding, length, All, arith,
}
use zngtcp.Conv.{IsByte}
use zngtcp.Conv.Read.{read_varint, value, rest, in_buffer, first_len, varint_cases}
use zngtcp.Frame.{AckRange}
use zngtcp.Frame.Cursor.{skip, skip_all}
use zngtcp.Frame.Layout.{◌>>=◌, read_ranges}
use zngtcp.Frame.Decode.Acks.{get_ranges, pass_ranges}

-- The end of the `k`-th integer from `p` on.
unfoldable pub after : ℕ → List ℕ → Option (List ℕ)
after zero p = some p
after (suc k) p = do (_, q) ← read_varint p; after k q

pub after_short : (k : ℕ) (p : List ℕ) → All IsByte p → length p < k → after k p ≡ none
unfolding after
after_short zero p h short = absurd (omega arith)
after_short (suc k) p h short = elim (varint_cases p h) [
  | inl cut ↦ ground arith
  | inr whole ↦ ground (arith, after_short k (rest p) whole.bytes)
]

-- What `skip_all` returns, by the end of the integers that it passes.
abbrev pub passed : ℕ → Option (List ℕ) → Outcome (ℕ × List ℕ)
passed payloadlen none = err frame_encoding
passed payloadlen (some q) = ok (payloadlen - length q, q)

pub skip_all-after :
    (k payloadlen len : ℕ) (p : List ℕ)
    → All IsByte p
    → len ≤ payloadlen
    → len + length p ≡ payloadlen + k
    → skip_all k payloadlen len p ≡ passed payloadlen (after k p)
unfolding skip_all after skip rest
skip_all-after zero payloadlen len p h le e = ground arith
skip_all-after (suc k) payloadlen len p h le e = elim (varint_cases p h) [
  | inl cut ↦ ground arith
  | inr whole ↦ ground (
    arith,
    skip_all-after k payloadlen (len + first_len p - 1) (rest p) whole.bytes,
    after_short k (rest p) whole.bytes,
  )
]

pub after-IsByte :
    (k : ℕ) (p q : List ℕ)
    → All IsByte p
    → after k p ≡ some q
    → All IsByte q × (length q + k ≤ length p)
unfolding after
after-IsByte zero p q h e = ground arith
after-IsByte (suc k) p q h e = elim (varint_cases p h) [
  | inl cut ↦ absurd (ground arith)
  | inr whole ↦ ground (arith, after-IsByte k (rest p) q whole.bytes)
]

pub after_pair :
    (n : ℕ) (p : List ℕ)
    → after (suc n * 2) p ≡ (read_varint p >>= λ x. read_varint x.1 >>= λ x'. after (n * 2) x'.1)
unfolding after
after_pair n p = let e : suc n * 2 ≡ suc (suc (n * 2)) = omega arith in ap (λ k. after k p) e

-- The layout's ranges end where twice as many integers end.
pub read_ranges-after :
    (n : ℕ) (p : List ℕ)
    → All IsByte p
    → ((after (n * 2) p ≡ none) × (read_ranges n p ≡ none))
      ⊎ ((q : List ℕ) × (ranges : List AckRange) × (after (n * 2) p ≡ some q)
          × (read_ranges n p ≡ some (ranges, q))
          × (length ranges ≡ n))
unfolding read_ranges after
read_ranges-after zero p h = inr (p, [], refl, refl, refl)
read_ranges-after (suc n) p h = elim (varint_cases p h) [
  | inl cut ↦ inl (ground (arith, after_pair n p), ground arith)
  | inr w ↦ elim (varint_cases (rest p) w.bytes) [
    | inl cut ↦ inl (ground (arith, after_pair n p), ground arith)
    | inr w' ↦ elim (read_ranges-after n (rest (rest p)) w'.bytes) [
      | inl (ends, unread) ↦ inl (ground (arith, after_pair n p), ground arith)
      | inr (q, ranges, ends, reads, count) ↦ inr (
        q,
        record { gap = value p; len = value (rest p) } ∷ ranges,
        ground (arith, after_pair n p),
        ground arith,
        omega arith,
      )
    ]
  ]
]

-- `ngtcp2_get_uvarint` over the ranges reads what the layout says.
pub get_ranges-read_ranges :
    (n : ℕ) (p : List ℕ) → All IsByte p → get_ranges n p ≡ in_buffer (read_ranges n p)
unfolding get_ranges read_ranges
get_ranges-read_ranges zero p h = refl
get_ranges-read_ranges (suc n) p h = elim (varint_cases p h) [
  | inl cut ↦ ground arith
  | inr w ↦ elim (varint_cases (rest p) w.bytes) [
    | inl cut ↦ ground arith
    | inr w' ↦ ground (arith, get_ranges-read_ranges n (rest (rest p)) w'.bytes)
  ]
]

pub pass_ranges-after :
    (n : ℕ) (p q : List ℕ) → All IsByte p → after (n * 2) p ≡ some q → pass_ranges n p ≡ ok q
unfolding pass_ranges after rest
pass_ranges-after zero p q h e = ground arith
pass_ranges-after (suc n) p q h e = elim (varint_cases p h) [
  | inl cut ↦ absurd (ground (arith, after_pair n p))
  | inr w ↦ elim (varint_cases (rest p) w.bytes) [
    | inl cut ↦ absurd (ground (arith, after_pair n p))
    | inr w' ↦ ground (arith, after_pair n p, pass_ranges-after n (rest (rest p)) q w'.bytes)
  ]
]
