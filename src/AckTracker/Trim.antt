-- ===== src/AckTracker/Trim.antt =====
-- The loop of `acktr_on_ack` in lib/ngtcp2_acktr.c, and the entry that it shortens
use zngtcp.Base.{
  ℕ, suc, ◌+◌, ◌-◌, ◌≤◌, ◌<◌, ◌≡◌, refl, ap, ◌∙◌, inl, inr, List, [], ◌∷◌, false, ◌&&◌, Bool-cases,
  ok, ltb, leb, length, arith,
}
use zngtcp.AckTracker.{AcktrEntry, above, trim_last}
use zngtcp.AckTracker.Tracked.{tracked, Ranges, From, tracked-below}

-- An entry is above `key`.
above-some :
    (bound key : ℕ) (f : AcktrEntry) (es kept : List AcktrEntry)
    → Ranges bound es
    → above key es ≡ f ∷ kept
    → key < bound
unfolding above
above-some bound key f [] kept r is = absurd (ground (arith, is))
above-some bound key f (e ∷ es) kept r is = elim (Bool-cases (ltb key e.pkt_num)) [
  | inl over ↦ ground (arith, over, r.0)
  | inr under ↦ absurd (ground (arith, under, is))
]

-- Below `bound`, the entries of `es` above `key` are left, the last of them shortened.
abbrev pub Trims : ℕ → ℕ → List AcktrEntry → List AcktrEntry → Type 0
Trims bound key es kept =
    (es' : List AcktrEntry) × (trim_last key kept ≡ ok es')
    × Ranges bound es'
    × (length es' ≤ length es)
    × From (suc key) es es'

trim_last-Trims :
    (bound key : ℕ) (e : AcktrEntry) (es kept : List AcktrEntry)
    → Ranges bound (e ∷ es)
    → key < e.pkt_num
    → above key es ≡ kept
    → Trims (e.pkt_num - e.len) key es kept
    → Trims bound key (e ∷ es) (e ∷ kept)
unfolding trim_last tracked
trim_last-Trims bound key e es [] r over is trims =
    let (es', trimmed, ranges, short, from) = trims in
    let nothing : [] ≡ es' = ground (arith, trimmed) in
    let low : (m : ℕ) → false ≡ (tracked m es && leb (suc key) m) =
      λ m. ap (tracked m) nothing ∙ from m in
    elim (Bool-cases (ltb e.pkt_num (key + e.len))) [
      | inl cut ↦ (
        record e { len = e.pkt_num - key } ∷ [],
        ground (arith, over, cut),
        (r.0, ground (arith, over), ground arith, tt),
        omega arith,
        λ m. ground (arith, over, cut, low m),
      )
      | inr whole ↦ (
        e ∷ [],
        ground (arith, over, whole),
        (r.0, r.1, r.2, tt),
        omega arith,
        λ m. ground (arith, over, whole, low m, r.2),
      )
    ]
trim_last-Trims bound key e es (f ∷ kept) r over is (es', trimmed, ranges, short, from) = (
  e ∷ es',
  ground (arith, trimmed),
  (r.0, r.1, r.2, ranges),
  omega (arith, short),
  λ m.
      let under = above-some (e.pkt_num - e.len) key f es kept r.3 is in
      ground (arith, under, from m),
)

pub trim_last-above :
    (bound key : ℕ) (es : List AcktrEntry) → Ranges bound es → Trims bound key es (above key es)
unfolding above trim_last tracked
trim_last-above bound key [] r = ([], refl, tt, omega arith, λ m. refl)
trim_last-above bound key (e ∷ es) r = elim (Bool-cases (ltb key e.pkt_num)) [
  | inl over ↦ rw (over) (
      trim_last-Trims bound key e es (above key es) r (ground (arith, over)) refl
        (trim_last-above (e.pkt_num - e.len) key es r.3))
  | inr under ↦ rw (under) (
    [],
    refl,
    tt,
    omega arith,
    λ m.
        ground
          (arith, under, tracked-below m (suc e.pkt_num) (e ∷ es) (omega arith, r.1, r.2, r.3)),
  )
]
