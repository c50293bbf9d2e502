-- ===== src/Pmtud/Search.antt =====
-- The loops of lib/ngtcp2_pmtud.c over the probes.
use zngtcp.Base.{
  ℕ, zero, suc, ◌+◌, ◌≤◌, ◌<◌, ◌≡◌, ◌⊎◌, inl, inr, List, [], ◌∷◌, some, Bool-cases, ltb, leb, ◌||◌,
  length, get_elem?, All, arith,
}
use zngtcp.Pmtud.{first_index, next_index, uint64_max}

-- It is known whether the path carries a payload of this size, or the size is beyond what is wanted.
abbrev pub IsSettled : ℕ → ℕ → ℕ → ℕ → Type 0
IsSettled hard_max max_size min_fail p = (p ≤ max_size) ⊎ ((hard_max < p) ⊎ (min_fail ≤ p))

abbrev pub IsOpen : ℕ → ℕ → ℕ → ℕ → Type 0
IsOpen hard_max max_size min_fail p = (max_size < p) × (p ≤ hard_max) × (p < min_fail)

-- `i` steps into the probes, the search stops at `k`: what it passes is settled, and what it stops at
-- is not.
pub record Stops (hard_max max_size min_fail i : ℕ) (ps : List ℕ) (k : ℕ) : Type 0 where
  pub steps : ℕ
  pub at : i + steps ≡ k
  pub within : steps ≤ length ps
  pub passed :
      (j p : ℕ) → j < steps → get_elem? ps j ≡ some p → IsSettled hard_max max_size min_fail p
  pub stops : (p : ℕ) → get_elem? ps steps ≡ some p → IsOpen hard_max max_size min_fail p

module _ (hard_max max_size min_fail i p k : ℕ) (ps : List ℕ) where
  pass :
      IsSettled hard_max max_size min_fail p
      → Stops hard_max max_size min_fail (suc i) ps k
      → Stops hard_max max_size min_fail i (p ∷ ps) k
  pass settled s = record {
    steps = suc s.steps;
    at = omega (arith, s.at);
    within = omega (arith, s.within);
    passed = λ j q.
        elim j
          as (λ j.
            j < suc s.steps
            → get_elem? (p ∷ ps) j ≡ some q
            → IsSettled hard_max max_size min_fail q) [
              | zero ↦ λ h e. let same : p ≡ q = ground (arith, e) in rw same at settled
              | suc j ↦ λ h e. s.passed j q (omega (arith, h)) e
            ];
    stops = s.stops;
  }

stay :
    (hard_max max_size min_fail i p : ℕ) (ps : List ℕ)
    → IsOpen hard_max max_size min_fail p
    → Stops hard_max max_size min_fail i (p ∷ ps) i
stay hard_max max_size min_fail i p ps (a, b, c) = record {
  steps = 0;
  at = omega arith;
  within = omega arith;
  passed = λ j q h e. absurd (omega (arith, h));
  stops = λ q e.
      let same : p ≡ q = ground (arith, e) in
      (omega (arith, same, a), omega (arith, same, b), omega (arith, same, c));
}

stop_end : (hard_max max_size min_fail i : ℕ) → Stops hard_max max_size min_fail i [] i
stop_end hard_max max_size min_fail i = record {
  steps = 0;
  at = omega arith;
  within = omega arith;
  passed = λ j q h e. absurd (omega (arith, h));
  stops = λ q e. absurd (ground (arith, e));
}

pub next_index-Stops :
    (hard_max max_size min_fail i : ℕ) (ps : List ℕ)
    → Stops hard_max max_size min_fail i ps (next_index hard_max max_size min_fail i ps)
unfolding next_index
next_index-Stops h m f i [] = stop_end h m f i
next_index-Stops h m f i (p ∷ ps) =
    let next = next_index h m f (suc i) ps in
    let rest = next_index-Stops h m f (suc i) ps in
    elim (Bool-cases (leb p m || ltb h p)) [
      | inl out ↦ rw out (pass h m f i p next ps (ground (arith, out)) rest)
      | inr wanted ↦ elim (Bool-cases (ltb p f)) [
        | inl untried ↦ rw (wanted, untried) (stay h m f i p ps (ground (arith, wanted, untried)))
        | inr failed ↦
            rw (wanted, failed) (pass h m f i p next ps (inr (inr (ground (arith, failed)))) rest)
      ]
    ]

pub first_index-Stops :
    (hard_max max_size i : ℕ) (ps : List ℕ)
    → All (λ p. p < uint64_max) ps
    → Stops hard_max max_size uint64_max i ps (first_index hard_max max_size i ps)
unfolding first_index
first_index-Stops h m i [] small = stop_end h m uint64_max i
first_index-Stops h m i (p ∷ ps) small =
    let next = first_index h m (suc i) ps in
    let rest = first_index-Stops h m (suc i) ps small.1 in
    elim (Bool-cases (ltb h p)) [
      | inl out ↦ rw out (pass h m uint64_max i p next ps (inr (inl (ground (arith, out)))) rest)
      | inr within ↦ elim (Bool-cases (ltb m p)) [
        | inl larger ↦
            rw (within, larger)
              (stay h m uint64_max i p ps (ground (arith, larger), ground (arith, within), small.0))
        | inr known ↦
            rw (within, known) (pass h m uint64_max i p next ps (inl (ground (arith, known))) rest)
      ]
    ]
