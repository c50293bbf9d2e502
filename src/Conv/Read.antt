-- ===== src/Conv/Read.antt =====
-- `ngtcp2_get_uvarint` against the decoder of RFC 9000, and what it consumes.
use zngtcp.Base.{
  ℕ, zero, suc, ◌+◌, ◌-◌, ◌*◌, ◌/◌, ◌%◌, ◌^◌, ◌≤◌, ◌<◌, ◌≡◌, refl, ap, ◌⊎◌, inl, inr, List, [], ◌∷◌,
  Option, none, some, Outcome, ok, fault, length, drop, length-drop, All, arith,
}
use zngtcp.Conv.{IsByte, get_uvarint_by, get_uvarint, get_uvarintlen}

-- RFC 9000, A.1: the low six bits of the first byte, then one byte after another.
abbrev pub next_bytes : ℕ → ℕ → List ℕ → Option (ℕ × List ℕ)
next_bytes zero v p = some (v, p)
next_bytes (suc k) v [] = none
next_bytes (suc k) v (b ∷ p) = next_bytes k (v * 256 + b) p

unfoldable pub read_varint : List ℕ → Option (ℕ × List ℕ)
read_varint [] = none
read_varint (b ∷ p) = next_bytes (2 ^ (b / 64) - 1) (b % 64) p

-- A read that needs more bytes than there are is a fault.
abbrev pub in_buffer {ℓ} : {A : Type ℓ} → Option A → Outcome A
in_buffer none = fault
in_buffer (some a) = ok a

top_cases : (b : ℕ) → IsByte b → (b / 64 ≡ 0) ⊎ ((b / 64 ≡ 1) ⊎ ((b / 64 ≡ 2) ⊎ (b / 64 ≡ 3)))
top_cases b h = omega arith

one_byte :
    (b : ℕ) (p : List ℕ)
    → b / 64 ≡ 0
    → get_uvarint_by 0 (b ∷ p) ≡ in_buffer (next_bytes 0 (b % 64) p)
unfolding get_uvarint_by
one_byte b p e = ground arith

two_bytes :
    (b : ℕ) (p : List ℕ)
    → b / 64 ≡ 1
    → All IsByte (b ∷ p)
    → get_uvarint_by 1 (b ∷ p) ≡ in_buffer (next_bytes 1 (b % 64) p)
unfolding get_uvarint_by
two_bytes b [] e h = refl
two_bytes b (c ∷ p) e h = ground arith

four_bytes :
    (b : ℕ) (p : List ℕ)
    → b / 64 ≡ 2
    → All IsByte (b ∷ p)
    → get_uvarint_by 2 (b ∷ p) ≡ in_buffer (next_bytes 3 (b % 64) p)
unfolding get_uvarint_by
four_bytes b (c ∷ d ∷ f ∷ p) e h = ground arith
four_bytes b _ e h = refl

eight_bytes :
    (b : ℕ) (p : List ℕ)
    → b / 64 ≡ 3
    → All IsByte (b ∷ p)
    → get_uvarint_by 3 (b ∷ p) ≡ in_buffer (next_bytes 7 (b % 64) p)
unfolding get_uvarint_by
eight_bytes b (c ∷ d ∷ f ∷ g ∷ i ∷ j ∷ k ∷ p) e h = ground arith
eight_bytes b _ e h = refl

-- On bytes, `ngtcp2_get_uvarint` computes what RFC 9000 says, value and advanced pointer; it reads
-- past the end of the buffer exactly when the encoding is cut short.
pub get_uvarint-read_varint :
    (p : List ℕ) → All IsByte p → get_uvarint p ≡ in_buffer (read_varint p)
unfolding get_uvarint read_varint
get_uvarint-read_varint [] h = refl
get_uvarint-read_varint (b ∷ p) h =
    ground (arith, top_cases b h.0, one_byte b p, two_bytes b p, four_bytes b p, eight_bytes b p)

-- The length, the value and the end of the integer at the start of a buffer.
unfoldable pub first_len : List ℕ → ℕ
first_len [] = 1
first_len (b ∷ p) = 2 ^ (b / 64)

unfoldable pub value : List ℕ → ℕ
unfolding read_varint
value p = elim (read_varint p) [ none ↦ 0 | some (v, _) ↦ v ]

unfoldable pub rest : List ℕ → List ℕ
unfolding first_len
rest p = drop (first_len p) p

-- The integer at `p` is cut short by the end of the buffer.
pub record IsCut (p : List ℕ) : Type 0 where
  pub short : length p < first_len p
  pub measured : 1 ≤ length p → get_uvarintlen p ≡ ok (first_len p)
  pub unread : read_varint p ≡ none
  pub faults : get_uvarint p ≡ fault

-- The integer at `p` lies in the buffer.
pub record IsWhole (p : List ℕ) : Type 0 where
  pub nonempty : 1 ≤ length p
  pub at_least : 1 ≤ first_len p
  pub measured : get_uvarintlen p ≡ ok (first_len p)
  pub consumed : length (rest p) + first_len p ≡ length p
  pub reads : read_varint p ≡ some (value p, rest p)
  pub gets : get_uvarint p ≡ ok (value p, rest p)
  pub bounded : value p < 2 ^ 62
  pub bytes : All IsByte (rest p)

pub All-drop : (n : ℕ) (p : List ℕ) → All IsByte p → All IsByte (drop n p)
All-drop zero p h = h
All-drop (suc n) [] h = h
All-drop (suc n) (b ∷ p) h = All-drop n p h.1

next_bytes_cases :
    (k v : ℕ) (p : List ℕ)
    → ((length p < k) × (next_bytes k v p ≡ none))
      ⊎ ((w : ℕ) × (k ≤ length p) × (next_bytes k v p ≡ some (w, drop k p)))
next_bytes_cases zero v p = inr (v, omega arith, refl)
next_bytes_cases (suc k) v [] = inl (omega arith, refl)
next_bytes_cases (suc k) v (b ∷ p) = elim (next_bytes_cases k (v * 256 + b) p) [
  | inl (short, e) ↦ inl (omega arith, e)
  | inr (w, whole, e) ↦ inr (w, omega arith, e)
]

first_len_pos : (b : ℕ) → IsByte b → 1 ≤ 2 ^ (b / 64)
first_len_pos b h = ground (arith, top_cases b h)

drop_cons : (n b : ℕ) (p : List ℕ) → 1 ≤ n → drop n (b ∷ p) ≡ drop (n - 1) p
drop_cons zero b p h = absurd (omega arith)
drop_cons (suc n) b p h = ap (λ k. drop k p) (omega arith)

pub get_uvarint-lt :
    (k : ℕ) (p : List ℕ) (v : ℕ) (q : List ℕ)
    → All IsByte p
    → get_uvarint_by k p ≡ ok (v, q)
    → v < 2 ^ 62
unfolding get_uvarint_by
get_uvarint-lt zero [] v q h e = cc
get_uvarint-lt zero (b ∷ p) v q h e = ground arith
get_uvarint-lt (suc zero) p v q h e = ground arith
get_uvarint-lt (suc (suc zero)) p v q h e = ground arith
get_uvarint-lt (suc (suc (suc zero))) p v q h e = ground arith
get_uvarint-lt (suc (suc (suc (suc k)))) p v q h e = cc

reads_whole :
    (b : ℕ) (p : List ℕ)
    → All IsByte (b ∷ p)
    → (w : ℕ) → next_bytes (2 ^ (b / 64) - 1) (b % 64) p ≡ some (w, drop (2 ^ (b / 64) - 1) p)
    → read_varint (b ∷ p) ≡ some (value (b ∷ p), rest (b ∷ p))
unfolding read_varint value rest
reads_whole b p h w e = ground (arith, drop_cons (2 ^ (b / 64)) b p (first_len_pos b h.0))

-- Every integer in a buffer of bytes is either whole or cut short.
pub varint_cases : (p : List ℕ) → All IsByte p → IsCut p ⊎ IsWhole p
unfolding first_len read_varint get_uvarint get_uvarintlen
varint_cases [] h = inl (record {
  short = omega arith;
  measured = λ h. absurd (omega arith);
  unread = refl;
  faults = refl;
})
varint_cases (b ∷ p) h = elim (next_bytes_cases (2 ^ (b / 64) - 1) (b % 64) p) [
  | inl (short, e) ↦ inl (ground (arith, first_len_pos b h.0, get_uvarint-read_varint (b ∷ p) h))
  | inr (w, whole, e) ↦
      let pos = first_len_pos b h.0 in
      inr (record {
        nonempty = omega arith;
        at_least = pos;
        measured = refl;
        consumed = unfold rest in omega (arith, length-drop (2 ^ (b / 64)) (b ∷ p));
        reads = reads_whole b p h w e;
        gets = rw (reads_whole b p h w e) at (get_uvarint-read_varint (b ∷ p) h);
        bounded =
            get_uvarint-lt (b / 64) (b ∷ p) _ _ h
              (rw (reads_whole b p h w e) at (get_uvarint-read_varint (b ∷ p) h));
        bytes = unfold rest in All-drop (2 ^ (b / 64)) (b ∷ p) h;
      })
]
