-- ===== src/Params/Safe/Values.antt =====
-- The values of the single parameters, at any bytes.
use zngtcp.Base.{
  ℕ, ◌≤◌, ◌≡◌, refl, inl, inr, List, [], ◌∷◌, true, not, ok, ◌>>=◌, ◌>>◌, leb, ◌==◌, length, All,
  arith,
}
use zngtcp.Conv.{IsByte, get_uvarint, get_uvarintlen}
use zngtcp.Conv.Read.{varint_cases}
use zngtcp.Params.Decode.{
  require, get_bytes, decode_varint_param, decode_zero_param, decode_cid_param, decode_reset_token,
  skip_unknown,
}
use zngtcp.Params.Safe.{
  Safe, Safe-bind, Safe-require, Advances, IsRead, IsSlice, get_bytes-Safe, decode_varint-Safe,
}

measured-Safe :
    (v : ℕ) (p q : List ℕ)
    → Advances p q
    → not (length q == 0) ≡ true
    → leb v (length q) ≡ true
    → Safe (IsRead p) (do len ← get_uvarintlen q; require (len == v); get_uvarint q)
measured-Safe v p q adv nonempty fits = elim (varint_cases q adv.bytes) [
  | inl cut ↦ ground (arith, adv.shorter, cut.short, cut.measured, cut.faults, nonempty, fits)
  | inr whole ↦ ground (
    arith, adv.shorter, whole.at_least, whole.measured, whole.consumed, whole.gets, whole.bounded,
    whole.bytes,
  )
]

pub decode_varint_param-Safe : (p : List ℕ) → All IsByte p → Safe (IsRead p) (decode_varint_param p)
unfolding decode_varint_param
decode_varint_param-Safe p h =
    Safe-bind (IsRead p) (IsRead p) _ _ (decode_varint-Safe p h) λ (v, q) (lt, adv).
      Safe-require (IsRead p) _ _
        λ nonempty. Safe-require (IsRead p) _ _ λ fits. measured-Safe v p q adv nonempty fits

pub decode_zero_param-Safe : (p : List ℕ) → All IsByte p → Safe (Advances p) (decode_zero_param p)
unfolding decode_zero_param
decode_zero_param-Safe [] h = refl
decode_zero_param-Safe (b ∷ p) h = ground arith

abbrev pub IsCid : List ℕ → List ℕ × List ℕ → Type 0
IsCid p r = (length r.0 ≤ 20) × All IsByte r.0 × Advances p r.1

slice-IsCid :
    (n : ℕ) (p q : List ℕ) → Advances p q → n ≤ 20 → n ≤ length q → Safe (IsCid p) (get_bytes n q)
slice-IsCid n p q adv small fits =
    ground (arith, adv.bytes, adv.shorter, get_bytes-Safe n q adv.bytes fits)

pub decode_cid_param-Safe : (p : List ℕ) → All IsByte p → Safe (IsCid p) (decode_cid_param p)
unfolding decode_cid_param
decode_cid_param-Safe p h =
    Safe-bind (IsRead p) (IsCid p) _ _ (decode_varint-Safe p h) λ (n, q) (lt, adv).
      Safe-require (IsCid p) _ _
        λ fits. slice-IsCid n p q adv (ground (arith, fits)) (ground (arith, fits))

abbrev pub IsToken : List ℕ → List ℕ × List ℕ → Type 0
IsToken p r = (length r.0 ≡ 16) × All IsByte r.0 × Advances p r.1

pub decode_reset_token-Safe : (p : List ℕ) → All IsByte p → Safe (IsToken p) (decode_reset_token p)
unfolding decode_reset_token
decode_reset_token-Safe p h =
    Safe-bind (IsRead p) (IsToken p) _ _ (decode_varint-Safe p h) λ (n, q) (lt, adv).
      Safe-require (IsToken p) (n == 16) _ λ sized.
        Safe-require (IsToken p) (leb 16 (length q)) (get_bytes 16 q) λ fits.
          ground
            (arith, adv.bytes, adv.shorter, get_bytes-Safe 16 q adv.bytes (ground (arith, fits)))

pub skip_unknown-Safe : (p : List ℕ) → All IsByte p → Safe (Advances p) (skip_unknown p)
unfolding skip_unknown
skip_unknown-Safe p h =
    Safe-bind (IsRead p) (Advances p) _ _ (decode_varint-Safe p h) λ (n, q) (lt, adv).
      Safe-require (Advances p) _ _ λ fits.
        Safe-bind (IsSlice n q) (Advances p) _ (λ r. ok r.1)
          (get_bytes-Safe n q adv.bytes (ground (arith, fits)))
          λ r s. ground (arith, adv.shorter, s)
