-- ===== src/Reorder/Consume.antt =====
-- Taking bytes out again, in lib/ngtcp2_reorder.c.
use zngtcp.Base.{
  get_elem-drop, ℕ, ◌+◌, ◌-◌, ◌≤◌, ◌<◌, ◌≡◌, refl, ◌∙◌, inl, inr, List, [], ◌∷◌, true, false,
  Bool-cases, none, length-drop, drop, ltb, leb, arith, if◌then◌else◌,
}
use zngtcp.Reorder.{Entry, Reorder, first_gap, first_gap_offset, remove_before, remove_prefix}
use zngtcp.Reorder.Content.{IsSorted, byte_in, byte_at, byte_at-below}
use zngtcp.Reorder.Push.{IsHeld, front-IsHeld, behind-IsHeld, byte_at-behind}

-- The bytes from `offset` up to the gap are held, and the one at the gap is not.
abbrev pub IsGap : List Entry → ℕ → ℕ → Type 0
IsGap es offset gap =
    (offset ≤ gap) × ((x : ℕ) → offset ≤ x → x < gap → IsHeld es x) × (byte_at es gap ≡ none)

passes :
    (ent : Entry) (es : List Entry) (offset : ℕ)
    → leb ent.last offset ≡ true
    → first_gap (ent ∷ es) offset ≡ first_gap es offset
unfolding first_gap
passes ent es offset e = rw (e, first_gap) refl

stops :
    (ent : Entry) (es : List Entry) (offset : ℕ)
    → leb ent.last offset ≡ false
    → ltb offset ent.begin ≡ true
    → first_gap (ent ∷ es) offset ≡ offset
unfolding first_gap
stops ent es offset e f = rw (e, f, first_gap) refl

covers :
    (ent : Entry) (es : List Entry) (offset : ℕ)
    → leb ent.last offset ≡ false
    → ltb offset ent.begin ≡ false
    → first_gap (ent ∷ es) offset ≡ first_gap es ent.last
unfolding first_gap
covers ent es offset e f = rw (e, f, first_gap) refl

first_gap-IsGap :
    (lo offset : ℕ) (es : List Entry)
    → IsSorted lo es
    → lo ≤ offset
    → IsGap es offset (first_gap es offset)
unfolding IsSorted
first_gap-IsGap lo offset [] s h =
    unfold first_gap byte_at in (omega arith, λ x a b. absurd (omega (arith, a, b)), refl)
first_gap-IsGap lo offset (ent ∷ es) (s1, s2, s3, s4) h = elim (Bool-cases (leb ent.last offset)) [
  | inl passed ↦
      let below : ent.last ≤ offset = ground (arith, passed) in
      let (grows, held, gap) = first_gap-IsGap ent.last offset es s4 below in
      let next : first_gap (ent ∷ es) offset ≡ first_gap es offset = passes ent es offset passed in
      rw next (
        grows,
        λ x a b. behind-IsHeld ent es x (omega (arith, below, a)) (held x a b),
        byte_at-behind ent es (first_gap es offset) (omega (arith, below, grows)) ∙ gap,
      )
  | inr reaches ↦
      let above : offset < ent.last = ground (arith, reaches) in
      elim (Bool-cases (ltb offset ent.begin)) [
        | inl low ↦
            let under : offset < ent.begin = ground (arith, low) in
            rw (stops ent es offset reaches low) (
              omega arith,
              λ x a b. absurd (omega (arith, a, b)),
              byte_at-below ent.begin (ent ∷ es) offset (omega arith, s2, s3, s4) under,
            )
        | inr inside ↦
            let start : ent.begin ≤ offset = ground (arith, inside) in
            let (grows, held, gap) = first_gap-IsGap ent.last ent.last es s4 (omega arith) in
            rw (covers ent es offset reaches inside) (
              omega (arith, above, grows),
              λ x a b. elim (Bool-cases (ltb x ent.last)) [
                | inl here ↦
                    front-IsHeld ent es x s3 (omega (arith, start, a)) (ground (arith, here))
                | inr later ↦
                    let behind : ent.last ≤ x = ground (arith, later) in
                    behind-IsHeld ent es x behind (held x behind b)
              ],
              byte_at-behind ent es (first_gap es ent.last) grows ∙ gap,
            )
      ]
]

-- `ngtcp2_reorder_first_gap_offset` returns the first offset at or behind the given one whose byte
-- is not held.
pub first_gap_offset-IsGap :
    (reorder : Reorder) (cont_offset : ℕ)
    → IsSorted 0 reorder.head
    → IsGap reorder.head cont_offset (first_gap_offset reorder cont_offset)
unfolding first_gap_offset
first_gap_offset-IsGap reorder offset s = first_gap-IsGap 0 offset reorder.head s (omega arith)

cut_byte :
    (ent : Entry) (offset : ℕ) (es : List Entry) (x : ℕ)
    → ent.begin ≤ offset
    → offset ≤ x
    → byte_at (record ent { begin = offset; buf = drop (offset - ent.begin) ent.buf } ∷ es) x
      ≡ byte_at (ent ∷ es) x
unfolding byte_at byte_in
cut_byte ent offset es x h a =
    let same : x - offset + (offset - ent.begin) ≡ x - ent.begin = omega (arith, h, a) in
    ground (arith, same, h, a, get_elem-drop (offset - ent.begin) ent.buf (x - offset))

-- The list without the bytes below `offset`.
remove_before-keeps :
    (lo offset : ℕ) (es : List Entry)
    → IsSorted lo es
    → IsSorted offset (remove_before es offset).0
      × ((x : ℕ) → offset ≤ x → byte_at (remove_before es offset).0 x ≡ byte_at es x)
unfolding remove_before IsSorted byte_at
remove_before-keeps lo offset [] s = (tt, λ x a. refl)
remove_before-keeps lo offset (ent ∷ es) (s1, s2, s3, s4) =
    elim (Bool-cases (leb offset ent.begin)) [
      | inl stop ↦ rw stop ((ground (arith, stop), s2, s3, s4), λ x a. refl)
      | inr low ↦ elim (Bool-cases (ltb offset ent.last)) [
        | inl cut ↦
            rw (low, cut)
              (
                (
                  omega arith,
                  ground (arith, cut),
                  ground (arith, low, cut, s3, length-drop (offset - ent.begin) ent.buf),
                  s4,
                ),
                λ x a. cut_byte ent offset es x (ground (arith, low)) a,
              )
        | inr gone ↦
            let passed : ent.last ≤ offset = ground (arith, gone) in
            let (sorted, kept) = remove_before-keeps ent.last offset es s4 in
            rw (low, gone)
              (
                sorted,
                λ x a. ground (arith, kept x a, byte_at-behind ent es x (omega (arith, passed, a))),
              )
      ]
    ]

-- `ngtcp2_reorder_remove_prefix` forgets the bytes below the offset, and no other; the entries stay
-- sorted.
pub remove_prefix-keeps :
    (reorder : Reorder) (offset : ℕ)
    → IsSorted 0 reorder.head
    → IsSorted offset (remove_prefix reorder offset).head
      × ((x : ℕ)
          → byte_at (remove_prefix reorder offset).head x
            ≡ (if ltb x offset then none else byte_at reorder.head x))
unfolding remove_prefix
remove_prefix-keeps reorder offset s =
    let (sorted, kept) = remove_before-keeps 0 offset reorder.head s in
    (
      sorted,
      λ x. elim (Bool-cases (ltb x offset)) [
        | inl low ↦ ground (
          arith,
          low,
          byte_at-below offset (remove_before reorder.head offset).0 x sorted (ground (arith, low)),
        )
        | inr high ↦ ground (arith, high, kept x (ground (arith, high)))
      ],
    )
