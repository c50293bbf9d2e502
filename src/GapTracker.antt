-- ===== src/GapTracker.antt =====
-- lib/ngtcp2_gaptr.c, lib/ngtcp2_range.c and lib/ngtcp2_idtr.c: which offsets, or stream IDs, have been
-- seen. The skip list of lib/ngtcp2_ksl.c is the list of its keys in their order, and it has memory.
pub mod Gaps
pub mod Cut
pub mod Ids
pub mod Examples
use zngtcp.Base.{
  ℕ, ◌+◌, ◌-◌, ◌/◌, ◌%◌, ◌^◌, min, max, List, [], ◌∷◌, ◌++◌, Bool, true, false, not, ◌&&◌, Outcome,
  ok, err, fault, ◌>>=◌, stream_in_use, ltb, leb, ◌==◌, length, if◌then◌else◌,
}

abbrev pub uint64_max : ℕ
uint64_max = 2 ^ 64 - 1

pub record Range : Type 0 where
  pub begin : ℕ
  pub end : ℕ

unfoldable pub range_intersect : Range → Range → Range
range_intersect a b =
    let begin = max a.begin b.begin in
    let end = min a.end b.end in
    if ltb begin end then record { begin = begin; end = end } else record { begin = 0; end = 0 }

unfoldable pub range_len : Range → ℕ
range_len r = r.end - r.begin

unfoldable pub range_eq : Range → Range → Bool
range_eq a b = a.begin == b.begin && a.end == b.end

unfoldable pub range_cut : Range → Range → Range × Range
range_cut a b = (record { begin = a.begin; end = b.begin }, record { begin = b.end; end = a.end })

-- `ngtcp2_ksl_range_exclusive_compar`
unfoldable pub exclusive_compar : Range → Range → Bool
exclusive_compar a b = ltb a.begin b.begin && not (ltb (max a.begin b.begin) (min a.end b.end))

-- `ngtcp2_ksl_lower_bound_search` with that: the keys from the first on that does not compare.
unfoldable pub lower_bound : Range → List Range → List Range
unfolding exclusive_compar
lower_bound q [] = []
lower_bound q (k ∷ ks) =
    let rest = lower_bound q ks in if exclusive_compar k q then rest else k ∷ ks

unfoldable pub below_bound : Range → List Range → List Range
unfolding exclusive_compar
below_bound q [] = []
below_bound q (k ∷ ks) =
    let rest = below_bound q ks in if exclusive_compar k q then k ∷ rest else []

-- `gaptr_gap_init`, where there is no gap in the list.
unfoldable pub initialised : List Range → List Range
initialised [] = record { begin = 0; end = uint64_max } ∷ []
initialised (k ∷ ks) = k ∷ ks

-- `k` is changed to what is left of it, in one or two pieces.
unfoldable pub pieces : Range → Range → List Range
unfolding range_len
pieces l r =
    if not (range_len l == 0)
    then (if not (range_len r == 0) then l ∷ r ∷ [] else l ∷ [])
    else if not (range_len r == 0)
    then r ∷ []
    else []

-- The loop of `ngtcp2_gaptr_push`. A key that is neither removed nor changed would stay.
unfoldable pub cut_from : Range → List Range → List Range
unfolding range_intersect range_len range_eq range_cut pieces
cut_from q [] = []
cut_from q (k ∷ ks) =
    let m = range_intersect q k in
    let rest = cut_from q ks in
    if range_len m == 0
    then k ∷ ks
    else if range_eq k m
    then rest
    else pieces (range_cut k m).0 (range_cut k m).1 ++ rest

abbrev pub query : ℕ → ℕ → Range
query offset datalen = record { begin = offset; end = (offset + datalen) % 2 ^ 64 }

unfoldable pub push : List Range → ℕ → ℕ → List Range
unfolding lower_bound below_bound initialised cut_from
push gaps offset datalen =
    let q = query offset datalen in
    below_bound q (initialised gaps) ++ cut_from q (lower_bound q (initialised gaps))

unfoldable pub first_gap_offset : List Range → ℕ
first_gap_offset [] = 0
first_gap_offset (k ∷ ks) = k.begin

-- The key at the iterator; there is one, `assert` says.
unfoldable pub it_key : List Range → Outcome Range
it_key [] = fault
it_key (k ∷ ks) = ok k

unfoldable pub get_first_gap_after : List Range → ℕ → Outcome Range
unfolding lower_bound it_key
get_first_gap_after [] offset = ok (record { begin = 0; end = uint64_max })
get_first_gap_after (k ∷ ks) offset = it_key (lower_bound (query offset 1) (k ∷ ks))

unfoldable pub is_pushed : List Range → ℕ → ℕ → Outcome Bool
unfolding lower_bound it_key range_intersect range_len
is_pushed [] offset datalen = ok false
is_pushed (k ∷ ks) offset datalen = do
  key ← it_key (lower_bound (query offset datalen) (k ∷ ks))
  ok (range_len (range_intersect (query offset datalen) key) == 0)

unfoldable pub drop_first_gap : List Range → List Range
drop_first_gap [] = []
drop_first_gap (k ∷ ks) = ks

unfoldable pub id_from_stream_id : ℕ → ℕ
id_from_stream_id stream_id = stream_id / 4

unfoldable pub idtr_open : List Range → ℕ → Outcome (List Range)
unfolding is_pushed push id_from_stream_id
idtr_open gaps stream_id = do
  used ← is_pushed gaps (id_from_stream_id stream_id) 1
  (if used then err stream_in_use else ok (push gaps (id_from_stream_id stream_id) 1))

unfoldable pub idtr_is_open : List Range → ℕ → Outcome Bool
unfolding is_pushed id_from_stream_id
idtr_is_open gaps stream_id = is_pushed gaps (id_from_stream_id stream_id) 1
