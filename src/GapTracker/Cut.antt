-- ===== src/GapTracker/Cut.antt =====
-- `ngtcp2_gaptr_push` of lib/ngtcp2_gaptr.c takes the range out of the gaps.
use zngtcp.Base.{
  ℕ, ◌+◌, ◌-◌, ◌%◌, ◌^◌, max, min, ◌≤◌, ◌<◌, ◌≡◌, refl, ◌∙◌, ◌⊎◌, inl, inr, List, [], ◌∷◌, ◌++◌,
  true, false, not, ◌&&◌, Bool-cases, ltb, leb, ◌==◌, arith, if◌then◌else◌,
}
use zngtcp.GapTracker.{
  uint64_max, Range, range_intersect, range_len, range_eq, range_cut, exclusive_compar, lower_bound,
  below_bound, initialised, pieces, cut_from, query, push,
}
use zngtcp.GapTracker.Gaps.{
  covers, in_gaps, IsSorted, in_gaps-append, in_gaps-below, IsSorted-weaken,
}

-- What one gap leaves.
unfoldable piece : Range → Range → List Range
piece q k =
    let m = range_intersect q k in
    if range_eq k m then [] else pieces (range_cut k m).0 (range_cut k m).1

piece-covers :
    (q k : Range) (x : ℕ)
    → k.begin < k.end
    → max q.begin k.begin < min q.end k.end
    → in_gaps (piece q k) x ≡ (covers k x && not (covers q x))
unfolding piece in_gaps covers range_intersect range_eq range_cut pieces range_len
piece-covers q k x h meets = ground (arith, h, meets)

-- The pieces in front of the range and behind it, where there are such.
four_cases :
    (q k : Range)
    → k.begin < k.end
    → max q.begin k.begin < min q.end k.end
    → piece q k ≡ (
        (if ltb k.begin q.begin then record { begin = k.begin; end = q.begin } ∷ [] else [])
        ++ (if ltb q.end k.end then record { begin = q.end; end = k.end } ∷ [] else []))
unfolding piece range_intersect range_eq range_cut pieces range_len
four_cases q k h meets = ground (arith, h, meets)

piece-IsSorted :
    (lo : ℕ) (q k : Range) (ks : List Range)
    → lo ≤ k.begin
    → k.begin < k.end
    → max q.begin k.begin < min q.end k.end
    → IsSorted k.end ks
    → IsSorted lo (piece q k ++ ks)
unfolding IsSorted
piece-IsSorted lo q k ks h1 h2 meets s =
    let meet : q.begin < q.end = omega (arith, meets) in
    let left : q.begin < k.end = omega (arith, meets) in
    let right : k.begin < q.end = omega (arith, meets) in
    elim (Bool-cases (ltb k.begin q.begin)) [
      | inl front ↦
          let a : k.begin < q.begin = ground (arith, front) in
          elim (Bool-cases (ltb q.end k.end)) [
            | inl back ↦
                let b : q.end < k.end = ground (arith, back) in
                rw (four_cases q k h2 meets, front, back, IsSorted)
                  (h1, a, (omega (arith, meet), b, s))
            | inr no_back ↦
                rw (four_cases q k h2 meets, front, no_back, IsSorted)
                  (h1, a, IsSorted-weaken k.end q.begin ks s (omega (arith, left)))
          ]
      | inr no_front ↦ elim (Bool-cases (ltb q.end k.end)) [
        | inl back ↦
            let b : q.end < k.end = ground (arith, back) in
            rw (four_cases q k h2 meets, no_front, back, IsSorted) (omega (arith, h1, right), b, s)
        | inr no_back ↦
            rw (four_cases q k h2 meets, no_front, no_back, IsSorted)
              (IsSorted-weaken k.end lo ks s (omega (arith, h1, h2)))
      ]
    ]

cut_from-step :
    (q k : Range) (ks : List Range)
    → max q.begin k.begin < min q.end k.end
    → cut_from q (k ∷ ks) ≡ piece q k ++ cut_from q ks
unfolding cut_from piece range_intersect range_len
cut_from-step q k ks meets =
    let found : ltb (max q.begin k.begin) (min q.end k.end) ≡ true = ground (arith, meets) in
    let some_left : min q.end k.end - max q.begin k.begin == 0 ≡ false = ground (arith, meets) in
    elim (Bool-cases (range_eq k (record { begin = max q.begin k.begin; end = min q.end k.end }))) [
      | inl whole ↦ rw (found, some_left, whole) refl
      | inr part ↦ rw (found, some_left, part) refl
    ]

cut_from-stop :
    (q k : Range) (ks : List Range)
    → min q.end k.end ≤ max q.begin k.begin
    → cut_from q (k ∷ ks) ≡ k ∷ ks
unfolding cut_from range_intersect range_len
cut_from-stop q k ks apart =
    let none_found : ltb (max q.begin k.begin) (min q.end k.end) ≡ false = ground (arith, apart) in
    rw none_found refl

-- Where gaps start that are all behind the range, nothing is in both.
in_gaps-above :
    (lo : ℕ) (q : Range) (ks : List Range) (x : ℕ)
    → IsSorted lo ks
    → q.end ≤ lo
    → in_gaps ks x ≡ (in_gaps ks x && not (covers q x))
unfolding covers
in_gaps-above lo q ks x s h = elim (Bool-cases (ltb x lo)) [
  | inl below ↦ ground (arith, in_gaps-below lo ks x s (ground (arith, below)))
  | inr above ↦ ground (arith, above, h)
]

-- The loop, from the first gap on that meets the range or is not in front of it.
abbrev Reaches : Range → List Range → Type 0
Reaches q [] = Unit
Reaches q (k ∷ ks) = (q.begin ≤ k.begin) ⊎ (max q.begin k.begin < min q.end k.end)

Reaches-behind :
    (lo : ℕ) (q : Range) (ks : List Range) → IsSorted lo ks → q.begin ≤ lo → Reaches q ks
unfolding IsSorted
Reaches-behind lo q [] s h = tt
Reaches-behind lo q (k ∷ ks) s h = inl (omega (arith, s.0, h))

both :
    (q k : Range) (ks front rest : List Range) (x : ℕ)
    → in_gaps front x ≡ (covers k x && not (covers q x))
    → in_gaps rest x ≡ (in_gaps ks x && not (covers q x))
    → in_gaps (front ++ rest) x ≡ (in_gaps (k ∷ ks) x && not (covers q x))
unfolding in_gaps
both q k ks front rest x e1 e2 = ground (arith, in_gaps-append front rest x, e1, e2)

all_behind :
    (lo : ℕ) (q k : Range) (ks : List Range)
    → IsSorted lo (k ∷ ks)
    → min q.end k.end ≤ max q.begin k.begin
    → Reaches q (k ∷ ks)
    → IsSorted k.begin (k ∷ ks) × (q.end ≤ k.begin)
unfolding IsSorted
all_behind lo q k ks (s1, s2, s3) stop (inl start) =
    ((omega arith, s2, s3), omega (arith, stop, start, s2))
all_behind lo q k ks (s1, s2, s3) stop (inr meets) = absurd (omega (arith, stop, meets))

cut_from-in_gaps :
    (lo : ℕ) (q : Range) (ks : List Range)
    → IsSorted lo ks
    → Reaches q ks
    → IsSorted lo (cut_from q ks)
      × ((x : ℕ) → in_gaps (cut_from q ks) x ≡ (in_gaps ks x && not (covers q x)))
unfolding IsSorted
cut_from-in_gaps lo q [] s r = unfold cut_from in_gaps in (tt, λ x. refl)
cut_from-in_gaps lo q (k ∷ ks) (s1, s2, s3) r =
    elim (Bool-cases (ltb (max q.begin k.begin) (min q.end k.end))) [
      | inl found ↦
          let meets : max q.begin k.begin < min q.end k.end = ground (arith, found) in
          let (sorted, same) =
            cut_from-in_gaps k.end q ks s3 (Reaches-behind k.end q ks s3 (omega (arith, meets))) in
          rw (cut_from-step q k ks meets) (
            piece-IsSorted lo q k (cut_from q ks) s1 s2 meets sorted,
            λ x. both q k ks (piece q k) (cut_from q ks) x (piece-covers q k x s2 meets) (same x),
          )
      | inr apart ↦
          let stop : min q.end k.end ≤ max q.begin k.begin = ground (arith, apart) in
          rw (cut_from-stop q k ks stop) (
            (s1, s2, s3),
            λ x.
                let (sorted, behind) = all_behind lo q k ks (s1, s2, s3) stop r in
                in_gaps-above k.begin q (k ∷ ks) x sorted behind,
          )
    ]

in_front :
    (q k : Range) (x : ℕ) (rest ks : List Range)
    → exclusive_compar k q ≡ true
    → in_gaps rest x ≡ (in_gaps ks x && not (covers q x))
    → in_gaps (k ∷ rest) x ≡ (in_gaps (k ∷ ks) x && not (covers q x))
unfolding exclusive_compar in_gaps covers
in_front q k x rest ks passed e = ground (arith, passed, e)

reaches : (q k : Range) → exclusive_compar k q ≡ false → Reaches q (k ∷ [])
unfolding exclusive_compar
reaches q k e = ground (arith, e)

-- The whole list: the gaps that are passed lie in front of the range.
push_range-in_gaps :
    (lo : ℕ) (q : Range) (ks : List Range)
    → IsSorted lo ks
    → IsSorted lo (below_bound q ks ++ cut_from q (lower_bound q ks))
      × ((x : ℕ)
          → in_gaps (below_bound q ks ++ cut_from q (lower_bound q ks)) x
            ≡ (in_gaps ks x && not (covers q x)))
unfolding below_bound lower_bound IsSorted in_gaps
push_range-in_gaps lo q [] s = unfold cut_from in (tt, λ x. refl)
push_range-in_gaps lo q (k ∷ ks) (s1, s2, s3) = elim (Bool-cases (exclusive_compar k q)) [
  | inl passed ↦
      let (sorted, same) = push_range-in_gaps k.end q ks s3 in
      rw passed (
        (s1, s2, sorted),
        λ x. in_front q k x (below_bound q ks ++ cut_from q (lower_bound q ks)) ks passed (same x),
      )
  | inr reached ↦
      rw reached (
        cut_from-in_gaps lo q (k ∷ ks) (s1, s2, s3)
          (unfold exclusive_compar in reaches q k reached))
]

-- A push of a range that ends below the largest offset takes exactly its offsets out of the gaps,
-- which stay sorted and apart; a tracker without gaps in its list has seen nothing.
pub push-in_gaps :
    (gaps : List Range) (offset datalen : ℕ)
    → IsSorted 0 (initialised gaps)
    → offset + datalen < uint64_max
    → IsSorted 0 (push gaps offset datalen)
      × ((x : ℕ)
          → in_gaps (push gaps offset datalen) x
            ≡ (in_gaps (initialised gaps) x && not (leb offset x && ltb x (offset + datalen))))
unfolding push
push-in_gaps gaps offset datalen s h =
    let end : (offset + datalen) % 2 ^ 64 ≡ offset + datalen = omega (arith, h) in
    let (sorted, same) = push_range-in_gaps 0 (query offset datalen) (initialised gaps) s in
    (sorted, λ x. same x ∙ unfold covers in ground (arith, end))
