-- ===== src/Frame/Sound/Acks/Ranges.antt =====
-- The ranges of an ACK frame: the first 32 are stored and the others are passed over.
use zngtcp.Base.{
  ℕ, zero, suc, ◌+◌, ◌-◌, ◌*◌, ◌≤◌, ◌≡◌, refl, ap, sym, ◌∙◌, min, inl, inr, List, [], ◌∷◌, ◌++◌,
  append-nil, some, ok, length, take, All, arith, take-length_append, Option-cases,
}
use zngtcp.Conv.{IsByte}
use zngtcp.Conv.Read.{value, rest, varint_cases}
use zngtcp.Frame.{AckRange, max_ack_ranges}
use zngtcp.Frame.Layout.{read_ranges}
use zngtcp.Frame.Decode.Acks.{get_ranges, pass_ranges}
use zngtcp.Frame.Sound.Acks.Passing.{
  after, after-IsByte, read_ranges-after, get_ranges-read_ranges, pass_ranges-after,
}

one_more : (a b : ℕ) (p : List ℕ) → read_ranges (suc a + b) p ≡ read_ranges (suc (a + b)) p
one_more a b p = let e : suc a + b ≡ suc (a + b) = omega arith in ap (λ k. read_ranges k p) e

read_ranges-append :
    (a b : ℕ) (p : List ℕ) (ranges : List AckRange) (q : List ℕ)
    → All IsByte p
    → read_ranges (a + b) p ≡ some (ranges, q)
    → (m : List ℕ) × (front : List AckRange) × (back : List AckRange) × (read_ranges a p
        ≡ some (front, m))
      × (read_ranges b m ≡ some (back, q))
      × (ranges ≡ front ++ back)
unfolding read_ranges
read_ranges-append zero b p ranges q h e =
    let e' : zero + b ≡ b = omega arith in (p, [], ranges, refl, rw e' at e, refl)
read_ranges-append (suc a) b p ranges q h e = elim (varint_cases p h) [
  | inl cut ↦ absurd (ground (arith, one_more a b p))
  | inr w ↦ elim (varint_cases (rest p) w.bytes) [
    | inl cut ↦ absurd (ground (arith, one_more a b p))
    | inr w' ↦ elim (Option-cases (read_ranges (a + b) (rest (rest p)))) [
      | inl unread ↦ absurd (ground (arith, one_more a b p))
      | inr ((others, q'), e') ↦
          let same : q' ≡ q = ground (arith, one_more a b p) in
          let (m, front, back, reads, reads', split) =
            read_ranges-append a b (rest (rest p)) others q w'.bytes (rw (← same) e') in
          let first : AckRange = record { gap = value p; len = value (rest p) } in
          (m, first ∷ front, back, ground arith, reads', ground (arith, one_more a b p))
    ]
  ]
]

take_whole : (ranges : List AckRange) (n : ℕ) → length ranges ≤ n → take n ranges ≡ ranges
take_whole [] zero h = refl
take_whole [] (suc n) h = refl
take_whole (r ∷ ranges) n h =
    elim n as (λ n. length (r ∷ ranges) ≤ n → take n (r ∷ ranges) ≡ r ∷ ranges) [
      | zero ↦ λ none_left. absurd (omega arith)
      | suc m ↦ λ fits. ap (◌∷◌ r) (take_whole ranges m (omega (arith, fits)))
    ]
      h

take_front :
    (n : ℕ) (front back : List AckRange)
    → length front ≡ min 32 n
    → length back ≡ n - min 32 n
    → take 32 (front ++ back) ≡ front
take_front n front [] e e' = rw append-nil (take_whole front 32 (omega arith))
take_front n front (x ∷ back) e e' =
    let full : 32 ≡ length front = omega arith in
    ap (λ k. take k (front ++ x ∷ back)) full ∙ take-length_append front (x ∷ back)

read_ranges_end :
    (n : ℕ) (p : List ℕ) (ranges : List AckRange) (q : List ℕ)
    → All IsByte p
    → read_ranges n p ≡ some (ranges, q)
    → (after (n * 2) p ≡ some q) × (length ranges ≡ n) × All IsByte q
read_ranges_end n p ranges q h e = elim (read_ranges-after n p h) [
  | inl (ends, unread) ↦ absurd (cc)
  | inr (q', ranges', ends, reads, count) ↦
      let same : q' ≡ q = ground arith in
      let ends' : after (n * 2) p ≡ some q = ends ∙ ap some same in
      (ends', ground arith, (after-IsByte (n * 2) p q h ends').0)
]

-- The two loops over the ranges of a frame that has them all.
pub ranges_kept :
    (n : ℕ) (p : List ℕ) (ranges : List AckRange) (q : List ℕ)
    → All IsByte p
    → read_ranges n p ≡ some (ranges, q)
    → (m : List ℕ) × (get_ranges (min max_ack_ranges n) p ≡ ok (take 32 ranges, m))
      × (pass_ranges (n - min max_ack_ranges n) m ≡ ok q)
ranges_kept n p ranges q h e =
    let a = min 32 n in
    let e' : a + (n - a) ≡ n = omega arith in
    let (m, front, back, reads, reads', split) =
      read_ranges-append a (n - a) p ranges q h (ap (λ k. read_ranges k p) e' ∙ e) in
    let (_, counted, bytes) = read_ranges_end a p front m h reads in
    let (ends, counted', _) = read_ranges_end (n - a) m back q bytes reads' in
    (
      m,
      get_ranges-read_ranges a p h
          ∙ rw reads (
              ap (λ r. ok (r, m))
                (sym (ap (take 32) split ∙ take_front n front back counted counted'))),
      pass_ranges-after (n - a) m q bytes ends,
    )
