-- ===== src/AckTracker/Tracked.antt =====
-- The packet numbers that the entries of `ngtcp2_acktr` in lib/ngtcp2_acktr.c stand for.
use zngtcp.Base.{
  ℕ, zero, suc, ◌+◌, ◌-◌, ◌≤◌, ◌<◌, ◌≡◌, refl, inl, inr, List, [], ◌∷◌, none, some, Bool, true,
  false, ◌&&◌, ◌||◌, Bool-cases, ltb, leb, length, take, arith,
}
use zngtcp.AckTracker.{AcktrEntry, AckTracker, max_ent}

-- `e` stands for the packet `n`.
abbrev pub entry_covers : ℕ → AcktrEntry → Bool
entry_covers n e = ltb e.pkt_num (n + e.len) && leb n e.pkt_num

unfoldable pub tracked : ℕ → List AcktrEntry → Bool
tracked n [] = false
tracked n (e ∷ es) = entry_covers n e || tracked n es

-- Below `bound`, the entries go down and leave a gap in between.
abbrev pub Ranges : ℕ → List AcktrEntry → Type 0
Ranges bound [] = Unit
Ranges bound (e ∷ es) =
    (e.pkt_num < bound) × (1 ≤ e.len) × (e.len ≤ e.pkt_num + 1) × Ranges (e.pkt_num - e.len) es

pub tracked-below :
    (m bound : ℕ) (es : List AcktrEntry) → Ranges bound es → tracked m es ≡ true → m < bound
unfolding tracked
tracked-below m bound [] r is = absurd (ground (arith, is))
tracked-below m bound (e ∷ es) r is = elim (Bool-cases (entry_covers m e)) [
  | inl here ↦ ground (arith, here)
  | inr past ↦
      let low = tracked-below m (e.pkt_num - e.len) es r.3 (ground (arith, past, is)) in
      omega (arith, low, r.0)
]

pub Ranges-weaken :
    (bound bound' : ℕ) (es : List AcktrEntry) → bound ≤ bound' → Ranges bound es → Ranges bound' es
Ranges-weaken bound bound' [] le r = tt
Ranges-weaken bound bound' (e ∷ es) le (lt, one, len, r) = (omega (arith, lt, le), one, len, r)

pub take-Ranges : (bound k : ℕ) (es : List AcktrEntry) → Ranges bound es → Ranges bound (take k es)
take-Ranges bound zero es r = tt
take-Ranges bound (suc k) [] r = tt
take-Ranges bound (suc k) (e ∷ es) (lt, one, le, r) =
    (lt, one, le, take-Ranges (e.pkt_num - e.len) k es r)

-- Of `es`, the entries `es'` stand for the packet numbers from `floor` on.
abbrev pub From : ℕ → List AcktrEntry → List AcktrEntry → Type 0
From floor es es' = (m : ℕ) → tracked m es' ≡ (tracked m es && leb floor m)

pub take-From :
    (bound k : ℕ) (es : List AcktrEntry)
    → Ranges bound es
    → (floor : ℕ) × (floor ≤ bound) × From floor es (take k es)
unfolding tracked
take-From bound zero es r = (
  bound,
  omega arith,
  λ m. elim (Bool-cases (tracked m es)) [
    | inl is ↦ let low = tracked-below m bound es r is in ground (arith, low)
    | inr out ↦ ground (arith, out)
  ],
)
take-From bound (suc k) [] r = (0, omega arith, λ m. refl)
take-From bound (suc k) (e ∷ es) r =
    let (floor, le, from) = take-From (e.pkt_num - e.len) k es r.3 in
    (
      floor,
      omega (arith, le, r.0),
      λ m. elim (Bool-cases (entry_covers m e)) [
        | inl here ↦ ground (arith, here, le)
        | inr past ↦ ground (arith, past, from m)
      ],
    )

-- The packet numbers of the entries are below this.
abbrev pub top : AckTracker → ℕ
top t = elim t.max_pkt_num [ none ↦ 0 | some m ↦ suc m ]

-- The entries go down from the largest packet number with gaps in between, and 33 are the most.
pub record IsTracker (t : AckTracker) : Type 0 where
  pub ranges : Ranges (top t) t.ents
  pub few : length t.ents ≤ max_ent
