-- ===== src/Packet/AckRanges.antt =====
-- `ngtcp2_pkt_validate_ack` of lib/ngtcp2_pkt.c. Its integers are below 2 ^ 62 + 2, and every
-- difference is taken where it is not negative.
use zngtcp.Base.{
  ℕ, ◌+◌, ◌-◌, ◌≤◌, ◌≡◌, refl, inl, inr, ◌↔◌, List, [], ◌∷◌, Outcome, ok, ◌>>◌, guard, ack_frame,
  proto, ltb, not, Bool-cases, arith,
}
use zngtcp.Frame.{Ack, AckRange}

-- The loop over `fr->ranges`.
unfoldable pub validate_ranges : ℕ → List AckRange → ℕ → Outcome (Unit {0})
validate_ranges largest_ack [] min_pkt_num = ok tt
validate_ranges largest_ack (r ∷ ranges) min_pkt_num = do
  guard (not (ltb largest_ack (r.gap + 2))) ack_frame
  let largest = largest_ack - (r.gap + 2)
  guard (not (ltb largest r.len)) ack_frame
  let smallest = largest - r.len
  guard (not (ltb smallest min_pkt_num)) proto
  validate_ranges smallest ranges min_pkt_num

unfoldable pub validate_ack : Ack → ℕ → Outcome (Unit {0})
validate_ack fr min_pkt_num = do
  guard (not (ltb fr.largest_ack fr.first_ack_range)) ack_frame
  let smallest = fr.largest_ack - fr.first_ack_range
  guard (not (ltb smallest min_pkt_num)) proto
  validate_ranges smallest fr.ranges min_pkt_num

-- The packets from `smallest` to `largest`.
pub record Interval : Type 0 where
  pub smallest : ℕ
  pub largest : ℕ

-- Below `bound`, each interval of `is` is the one that its range stands for: `gap` and one more
-- packets are missing in between.
abbrev pub Stands : ℕ → List AckRange → List Interval → Type 0
Stands bound [] [] = Unit
Stands bound [] (i ∷ is) = ⊥
Stands bound (r ∷ rs) [] = ⊥
Stands bound (r ∷ rs) (i ∷ is) =
    (i.largest + r.gap + 2 ≡ bound) × (i.smallest + r.len ≡ i.largest) × Stands i.smallest rs is

-- What an ACK frame acknowledges, with no number below zero.
abbrev pub Acknowledges : Ack → List Interval → Type 0
Acknowledges fr [] = ⊥
Acknowledges fr (i ∷ is) =
    (i.largest ≡ fr.largest_ack)
    × (i.smallest + fr.first_ack_range ≡ i.largest)
    × Stands i.smallest fr.ranges is

-- No packet below `min`.
abbrev pub From : ℕ → List Interval → Type 0
From min [] = Unit
From min (i ∷ is) = (min ≤ i.smallest) × From min is

ranges-stand :
    (bound : ℕ) (rs : List AckRange) (min : ℕ)
    → validate_ranges bound rs min ≡ ok tt
    → (is : List Interval) × Stands bound rs is × From min is
unfolding validate_ranges
ranges-stand bound [] min e = ([], tt, tt)
ranges-stand bound (r ∷ rs) min e = elim (Bool-cases (ltb bound (r.gap + 2))) [
  | inl under ↦ absurd (ground (arith, under, e))
  | inr gap ↦
      let largest = bound - (r.gap + 2) in
      elim (Bool-cases (ltb largest r.len)) [
        | inl under ↦ absurd (ground (arith, under, gap, e))
        | inr len ↦
            let smallest = largest - r.len in
            elim (Bool-cases (ltb smallest min)) [
              | inl under ↦ absurd (ground (arith, under, gap, len, e))
              | inr from ↦
                  let rest : validate_ranges smallest rs min ≡ ok tt =
                    ground (arith, from, gap, len, e) in
                  let (is, stand, above) = ranges-stand smallest rs min rest in
                  (
                    record { smallest = smallest; largest = largest } ∷ is,
                    (ground arith, ground arith, stand),
                    (ground arith, above),
                  )
            ]
      ]
]

stand-validate :
    (bound : ℕ) (rs : List AckRange) (min : ℕ) (is : List Interval)
    → Stands bound rs is
    → From min is
    → validate_ranges bound rs min ≡ ok tt
unfolding validate_ranges
stand-validate bound [] min [] s f = refl
stand-validate bound [] min (i ∷ is) s f = absurd s
stand-validate bound (r ∷ rs) min [] s f = absurd s
stand-validate bound (r ∷ rs) min (i ∷ is) s f =
    let rest = stand-validate i.smallest rs min is s.2 f.1 in
    let a : bound - (r.gap + 2) ≡ i.largest = omega (arith, s.0) in
    let b : i.largest - r.len ≡ i.smallest = omega (arith, s.1) in
    ground (arith, a, b, rest, s.0, s.1, f.0)

intervals-validate :
    (fr : Ack) (min : ℕ) (is : List Interval)
    → Acknowledges fr is
    → From min is
    → validate_ack fr min ≡ ok tt
unfolding validate_ack
intervals-validate fr min [] a f = absurd a
intervals-validate fr min (i ∷ is) a f =
    let rest = stand-validate i.smallest fr.ranges min is a.2 f.1 in
    let low : fr.largest_ack - fr.first_ack_range ≡ i.smallest = omega (arith, a.0, a.1) in
    ground (arith, low, rest, a.0, a.1, f.0)

-- An ACK frame is valid exactly if the ranges of the frame stand for intervals of packet numbers,
-- from the largest down, none of which goes below zero or below `min_pkt_num`.
pub validate_ack-Acknowledges :
    (fr : Ack) (min_pkt_num : ℕ)
    → (validate_ack fr min_pkt_num ≡ ok tt)
      ↔ ((is : List Interval) × Acknowledges fr is × From min_pkt_num is)
unfolding validate_ack
validate_ack-Acknowledges fr min = (
  λ e. elim (Bool-cases (ltb fr.largest_ack fr.first_ack_range)) [
    | inl under ↦ absurd (ground (arith, under, e))
    | inr first ↦
        let smallest = fr.largest_ack - fr.first_ack_range in
        elim (Bool-cases (ltb smallest min)) [
          | inl under ↦ absurd (ground (arith, under, first, e))
          | inr from ↦
              let rest : validate_ranges smallest fr.ranges min ≡ ok tt =
                ground (arith, from, first, e) in
              let (is, stand, above) = ranges-stand smallest fr.ranges min rest in
              (
                record { smallest = smallest; largest = fr.largest_ack } ∷ is,
                (refl, ground arith, stand),
                (ground arith, above),
              )
        ]
  ],
  λ (is, acked, above). intervals-validate fr min is acked above,
)
