-- ===== src/GapTracker/Ids/Pushed.antt =====
-- `ngtcp2_gaptr_is_pushed` of lib/ngtcp2_gaptr.c.
use zngtcp.Base.{
  ℕ, ◌+◌, ◌-◌, ◌%◌, ◌^◌, max, min, ◌≤◌, ◌<◌, ◌≡◌, refl, inl, inr, ◌↔◌, List, [], ◌∷◌, Bool, true,
  false, Bool-cases, ok, ◌>>=◌, ltb, ◌==◌, arith,
}
use zngtcp.GapTracker.{
  uint64_max, Range, range_intersect, range_len, exclusive_compar, lower_bound, initialised, query,
  it_key, is_pushed,
}
use zngtcp.GapTracker.Gaps.{covers, in_gaps, IsSorted, in_gaps-below}

-- The gaps are sorted, and the largest offset is in none of the ranges that were pushed.
abbrev pub IsTracker : List Range → Type 0
IsTracker gaps =
    IsSorted 0 (initialised gaps) × (in_gaps (initialised gaps) (uint64_max - 1) ≡ true)

-- The key that a lookup finds, against the offsets of the query.
pub record Finds (q : Range) (ks : List Range) : Type 0 where
  pub key : Range
  pub found : it_key (lower_bound q ks) ≡ ok key
  pub misses :
      min q.end key.end ≤ max q.begin key.begin → (x : ℕ) → covers q x ≡ true → in_gaps ks x ≡ false
  pub meets : max q.begin key.begin < min q.end key.end → in_gaps ks (max q.begin key.begin) ≡ true

stop_here :
    (lo : ℕ) (q k : Range) (ks : List Range)
    → IsSorted lo (k ∷ ks)
    → exclusive_compar k q ≡ false
    → min q.end k.end ≤ max q.begin k.begin
    → (x : ℕ) → covers q x ≡ true
    → in_gaps (k ∷ ks) x ≡ false
unfolding exclusive_compar covers IsSorted in_gaps
stop_here lo q k ks (s1, s2, s3) e apart x inside =
    let start : q.begin ≤ k.begin = ground (arith, e, apart, s2, inside) in
    let low : x < k.begin = ground (arith, apart, s2, inside, start) in
    ground (arith, low, in_gaps-below k.end ks x s3 (omega (arith, low, s2)))

lookup :
    (lo : ℕ) (q : Range) (ks : List Range)
    → IsSorted lo ks
    → q.begin < q.end
    → q.end < uint64_max
    → in_gaps ks (uint64_max - 1) ≡ true
    → Finds q ks
unfolding lower_bound it_key IsSorted in_gaps
lookup lo q [] s h1 h2 top = absurd (cc)
lookup lo q (k ∷ ks) (s1, s2, s3) h1 h2 top = elim (Bool-cases (exclusive_compar k q)) [
  | inl passed ↦
      let front : k.end ≤ q.begin = unfold exclusive_compar in ground (arith, passed, h1) in
      let top' : in_gaps ks (uint64_max - 1) ≡ true =
        unfold covers in ground (arith, top, front, h1, h2) in
      let rest = lookup k.end q ks s3 h1 h2 top' in
      record {
        key = rest.key;
        found = rw (passed, lower_bound) rest.found;
        misses = λ apart x inside.
            unfold covers in ground (arith, rest.misses apart x inside, front, inside);
        meets = λ meet. ground (arith, rest.meets meet);
      }
  | inr reached ↦ record {
    key = k;
    found = rw (reached, lower_bound) refl;
    misses = λ apart x inside. stop_here lo q k ks (s1, s2, s3) reached apart x inside;
    meets = λ meet. unfold covers in ground (arith, meet);
  }
]

abbrev pub Unseen : List Range → ℕ → ℕ → Type 0
Unseen gaps offset upto = (x : ℕ) → offset ≤ x → x < upto → in_gaps gaps x ≡ false

no_overlap :
    (q k : Range)
    → min q.end k.end ≤ max q.begin k.begin
    → range_len (range_intersect q k) == 0 ≡ true
unfolding range_len range_intersect
no_overlap q k h = ground (arith, h)

overlap :
    (q k : Range)
    → max q.begin k.begin < min q.end k.end
    → range_len (range_intersect q k) == 0 ≡ false
unfolding range_len range_intersect
overlap q k h = ground (arith, h)

pushed_list :
    (k : Range) (ks : List Range) (q : Range)
    → IsSorted 0 (k ∷ ks)
    → in_gaps (k ∷ ks) (uint64_max - 1) ≡ true
    → q.begin < q.end
    → q.end < uint64_max
    → (b : Bool) × ((do
      key ← it_key (lower_bound q (k ∷ ks))
      ok (range_len (range_intersect q key) == 0))
        ≡ ok b)
      × ((b ≡ true) ↔ Unseen (k ∷ ks) q.begin q.end)
pushed_list k ks q s top h1 h2 =
    let f = lookup 0 q (k ∷ ks) s h1 h2 top in
    elim (Bool-cases (ltb (max q.begin f.key.begin) (min q.end f.key.end))) [
      | inl some_gap ↦
          let meet : max q.begin f.key.begin < min q.end f.key.end = ground (arith, some_gap) in
          (
            false,
            rw (f.found, overlap q f.key meet) refl,
            (
              λ e. absurd (ground (arith, e)),
              λ unseen. absurd (
                  ground (
                    arith,
                    f.meets meet,
                    unseen (max q.begin f.key.begin) (omega arith) (omega (arith, meet)),
                  )),
            ),
          )
      | inr no_gap ↦
          let apart : min q.end f.key.end ≤ max q.begin f.key.begin = ground (arith, no_gap) in
          (
            true,
            rw (f.found, no_overlap q f.key apart) refl,
            (λ e x a b. f.misses apart x (unfold covers in ground (arith, a, b)), λ unseen. refl),
          )
    ]

-- `ngtcp2_gaptr_is_pushed` of a range that is not empty, and ends below the largest offset, tells if all
-- its offsets have been pushed; its `assert` does not fail.
pub is_pushed-in_gaps :
    (gaps : List Range) (offset datalen : ℕ)
    → IsTracker gaps
    → 1 ≤ datalen
    → offset + datalen < uint64_max
    → (b : Bool) × (is_pushed gaps offset datalen ≡ ok b)
      × ((b ≡ true)
          ↔ ((x : ℕ) → offset ≤ x → x < offset + datalen → in_gaps (initialised gaps) x ≡ false))
unfolding is_pushed initialised
is_pushed-in_gaps [] offset datalen (s, top) h1 h2 = (
  false,
  refl,
  (
    λ e. absurd (ground (arith, e)),
    λ unseen. absurd (
        unfold in_gaps covers in
        ground (arith, unseen offset (omega arith) (omega (arith, h1)), h1, h2)),
  ),
)
is_pushed-in_gaps (k ∷ ks) offset datalen (s, top) h1 h2 =
    let q = query offset datalen in
    let end : (offset + datalen) % 2 ^ 64 ≡ offset + datalen = omega (arith, h2) in
    let (b, looked, all) =
      pushed_list k ks q s top (omega (arith, h1, end)) (omega (arith, h2, end)) in
    (
      b,
      looked,
      (
        λ e x from upto. all.0 e x from (omega (arith, upto, end)),
        λ unseen. all.1 (λ x from upto. unseen x from (omega (arith, upto, end))),
      ),
    )
