-- ===== src/Params/Safe.antt =====
-- What the parts of `ngtcp2_transport_params_decode_versioned` do to any bytes: they stay inside the
-- buffer, advance, and refuse with NGTCP2_ERR_MALFORMED_TRANSPORT_PARAM only.
pub mod Values
pub mod Compound
pub mod Whole
use zngtcp.Base.{
  ℕ, zero, suc, ◌+◌, ◌-◌, ◌%◌, ◌^◌, ◌≤◌, ◌<◌, ◌≡◌, refl, ◌⊎◌, inl, inr, List, [], ◌∷◌, Bool, true,
  false, Outcome, ok, err, fault, ◌>>=◌, ◌>>◌, Error, malformed_transport_param, length, take, drop,
  length-drop, length-take, All, arith,
}
use zngtcp.Conv.{IsByte}
use zngtcp.Conv.Read.{varint_cases, IsCut, IsWhole}
use zngtcp.Params.Decode.{
  require, get_bytes, decode_varint, decode_varint_param, decode_zero_param, decode_cid_param,
}

-- A result that satisfies `P`, or the one error.
abbrev pub Safe {ℓ} : {A : Type ℓ} → (A → Type 0) → Outcome A → Type 0
Safe P (ok a) = P a
Safe P (err e) = e ≡ malformed_transport_param
Safe P fault = ⊥

pub Safe-bind {ℓ κ} :
    {A : Type ℓ} {B : Type κ} (P : A → Type 0) (Q : B → Type 0) (m : Outcome A) (f : A → Outcome B)
    → Safe P m
    → ((a : A) → P a → Safe Q (f a))
    → Safe Q (m >>= f)
Safe-bind P Q (ok a) f h k = k a h
Safe-bind P Q (err e) f h k = h
Safe-bind P Q fault f h k = h

pub Safe-require {ℓ} :
    {B : Type ℓ} (Q : B → Type 0) (b : Bool) (m : Outcome B)
    → (b ≡ true → Safe Q m)
    → Safe Q (require b >> m)
Safe-require Q true m h = h refl
Safe-require Q false m h = refl

-- The pointer advances from `p` to `q`, which lies in the same buffer.
pub record Advances (p q : List ℕ) : Type 0 where
  pub bytes : All IsByte q
  pub shorter : length q < length p

-- The same, by `n` bytes
pub record Passes (n : ℕ) (p q : List ℕ) : Type 0 where
  pub bytes : All IsByte q
  pub passed : length q + n ≡ length p

pub All-drop : (n : ℕ) (p : List ℕ) → All IsByte p → All IsByte (drop n p)
All-drop zero p h = h
All-drop (suc n) [] h = h
All-drop (suc n) (b ∷ p) h = All-drop n p h.1

pub All-take : (n : ℕ) (p : List ℕ) → All IsByte p → All IsByte (take n p)
All-take zero p h = tt
All-take (suc n) [] h = tt
All-take (suc n) (b ∷ p) h = (h.0, All-take n p h.1)

abbrev pub IsRead : List ℕ → ℕ × List ℕ → Type 0
IsRead p r = (r.0 < 2 ^ 62) × Advances p r.1

abbrev pub IsSlice : ℕ → List ℕ → List ℕ × List ℕ → Type 0
IsSlice n p r = (length r.0 ≡ n) × All IsByte r.0 × Passes n p r.1

pub get_bytes-Safe :
    (n : ℕ) (p : List ℕ) → All IsByte p → n ≤ length p → Safe (IsSlice n p) (get_bytes n p)
unfolding get_bytes
get_bytes-Safe n p h fits =
    ground (arith, All-drop n p, All-take n p, length-drop n p, length-take n p)

pub decode_varint-Safe : (p : List ℕ) → All IsByte p → Safe (IsRead p) (decode_varint p)
unfolding decode_varint
decode_varint-Safe p h = elim (varint_cases p h) [
  | inl cut ↦ ground (arith, cut.short, cut.measured, cut.faults)
  | inr whole ↦ ground (
    arith, whole.nonempty, whole.at_least, whole.measured, whole.consumed, whole.gets,
    whole.bounded, whole.bytes,
  )
]
