-- ===== src/Reorder/Pop.antt =====
-- `ngtcp2_reorder_data_at` and `ngtcp2_reorder_pop` of lib/ngtcp2_reorder.c.
use zngtcp.Base.{
  get_elem-drop, ℕ, ◌+◌, ◌-◌, ◌≤◌, ◌<◌, ◌≡◌, refl, sym, ap, ◌∙◌, ◌⊎◌, inl, inr, List, [], ◌∷◌, ◌++◌,
  Bool-cases, none, length, length-drop, get_elem?, drop, ltb, arith, ok,
}
use zngtcp.Reorder.{Entry, Reorder, data_in, data_at, pop_in, pop, release_all}
use zngtcp.Reorder.Content.{IsSorted, IsSorted-weaken, byte_in, byte_at, byte_at-below}
use zngtcp.Reorder.Push.{byte_at-front, byte_at-behind}

-- The run of held bytes that `ngtcp2_reorder_data_at` gives.
abbrev pub IsRun : List Entry → ℕ → List ℕ → Type 0
IsRun es offset run = (i : ℕ) → i < length run → byte_at es (offset + i) ≡ get_elem? run i

data_in-IsRun :
    (offset : ℕ) (es : List Entry)
    → IsSorted offset es
    → (run : List ℕ) × (data_in es offset ≡ ok (run, length run))
      × IsRun es offset run
      × ((byte_at es offset ≡ none) ⊎ (1 ≤ length run))
unfolding data_in IsSorted byte_at
data_in-IsRun offset [] s = ([], refl, λ i h. absurd (omega (arith, h)), inl refl)
data_in-IsRun offset (ent ∷ es) (s1, s2, s3, s4) = elim (Bool-cases (ltb offset ent.begin)) [
  | inl low ↦ (
    [],
    ground (arith, low, s1, s2),
    λ i h. absurd (omega (arith, h)),
    inl (byte_at-below ent.begin (ent ∷ es) offset (omega arith, s2, s3, s4) (ground (arith, low))),
  )
  | inr here ↦
      let starts : offset ≡ ent.begin = ground (arith, here, s1) in
      (
        ent.buf,
        ground (arith, starts, s2, s3),
        λ i h.
            let same : offset + i - ent.begin ≡ i = omega (arith, starts) in
            byte_at-front ent es (offset + i) (omega (arith, starts)) (omega (arith, starts, h, s3))
            ∙ ap (get_elem? ent.buf) same,
        inr (omega (arith, s2, s3)),
      )
]

-- Once all entries start at or behind the offset, `ngtcp2_reorder_data_at` returns bytes that are held from
-- there on, at least one if the first is held; its `assert` does not fail.
pub data_at-IsRun :
    (reorder : Reorder) (offset : ℕ)
    → IsSorted offset reorder.head
    → (run : List ℕ) × (data_at reorder offset ≡ ok (run, length run))
      × IsRun reorder.head offset run
      × ((byte_at reorder.head offset ≡ none) ⊎ (1 ≤ length run))
unfolding data_at
data_at-IsRun reorder offset s = data_in-IsRun offset reorder.head s

popped_byte :
    (ent : Entry) (len : ℕ) (es : List Entry) (x : ℕ)
    → ent.begin + len ≤ x
    → byte_at (record ent { begin = ent.begin + len; buf = drop len ent.buf } ∷ es) x
      ≡ byte_at (ent ∷ es) x
unfolding byte_at byte_in
popped_byte ent len es x a =
    let same : x - (ent.begin + len) + len ≡ x - ent.begin = omega (arith, a) in
    ground (arith, same, a, get_elem-drop len ent.buf (x - (ent.begin + len)))

pop_in-keeps :
    (offset len : ℕ) (run : List ℕ) (es : List Entry)
    → IsSorted offset es
    → data_in es offset ≡ ok (run, length run)
    → 1 ≤ len
    → len ≤ length run
    → (es' : List Entry) × (gone : List Entry) × (pop_in es offset len ≡ ok (es', gone))
      × IsSorted (offset + len) es'
      × ((x : ℕ) → offset + len ≤ x → byte_at es' x ≡ byte_at es x)
unfolding pop_in data_in IsSorted
pop_in-keeps offset len run [] s e h1 h2 = absurd (ground (arith, e, h1, h2))
pop_in-keeps offset len run (ent ∷ es) (s1, s2, s3, s4) e h1 h2 =
    let starts : offset ≡ ent.begin = ground (arith, e, s1, s2, h1, h2) in
    let fits : offset + len ≤ ent.last = ground (arith, e, s1, s2, s3, h1, h2, starts) in
    elim (Bool-cases (ltb (offset + len) ent.last)) [
      | inl some_left ↦ (
        record ent { begin = ent.begin + len; buf = drop len ent.buf } ∷ es,
        [],
        ground (arith, starts, fits, some_left, s2),
        (
          omega (arith, starts),
          ground (arith, some_left, starts),
          ground (arith, length-drop len ent.buf, s3, some_left, starts),
          s4,
        ),
        λ x a. popped_byte ent len es x (omega (arith, a, starts)),
      )
      | inr all ↦
          let end : offset + len ≡ ent.last = ground (arith, all, fits) in
          (
            es,
            ent ∷ [],
            ground (arith, starts, fits, all, s2),
            IsSorted-weaken ent.last (offset + len) es s4 (omega (arith, end)),
            λ x a. sym (byte_at-behind ent es x (omega (arith, end, a))),
          )
    ]

-- `ngtcp2_reorder_pop` of bytes that `ngtcp2_reorder_data_at` gave forgets exactly these.
pub pop-keeps :
    (reorder : Reorder) (offset len : ℕ) {run : List ℕ}
    → IsSorted offset reorder.head
    → data_at reorder offset ≡ ok (run, length run)
    → 1 ≤ len
    → len ≤ length run
    → (new : Reorder) × (pop reorder offset len ≡ ok new)
      × IsSorted (offset + len) new.head
      × ((x : ℕ) → offset + len ≤ x → byte_at new.head x ≡ byte_at reorder.head x)
unfolding pop data_at
pop-keeps reorder offset len {run} s e h1 h2 =
    let (es, gone, popped, sorted, kept) = pop_in-keeps offset len run reorder.head s e h1 h2 in
    (
      record { head = es; released = reorder.released ++ release_all gone },
      rw popped refl,
      sorted,
      kept,
    )
