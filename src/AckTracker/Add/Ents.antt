-- ===== src/AckTracker/Add/Ents.antt =====
-- The entries of the tracker of lib/ngtcp2_acktr.c, when a packet is added.
use zngtcp.Base.{
  ℕ, suc, ◌+◌, ◌-◌, ◌≤◌, ◌<◌, ◌≡◌, refl, inl, inr, List, [], ◌∷◌, false, ◌||◌, Bool-cases, Outcome,
  ok, ◌>>=◌, ltb, ◌==◌, length, arith,
}
use zngtcp.AckTracker.{AcktrEntry, new_entry}
use zngtcp.AckTracker.Insert.{raised, add_front, add_last, add_between, add_ents}
use zngtcp.AckTracker.Tracked.{tracked, Ranges}

-- `es'` are the entries `es` with the packet `n`.
pub record Adds (bound n : ℕ) (es es' : List AcktrEntry) : Type 0 where
  pub ranges : Ranges bound es'
  pub short : length es' ≤ suc (length es)
  pub exact : (m : ℕ) → tracked m es' ≡ (tracked m es || m == n)

abbrev AddsOk : ℕ → ℕ → List AcktrEntry → Outcome (List AcktrEntry) → Type 0
AddsOk bound n es o = (es' : List AcktrEntry) × (o ≡ ok es') × Adds bound n es es'

front-AddsOk :
    (bound n ts : ℕ) (e : AcktrEntry) (es : List AcktrEntry)
    → Ranges bound (e ∷ es)
    → n < bound
    → e.pkt_num ≤ n
    → tracked n (e ∷ es) ≡ false
    → AddsOk bound n (e ∷ es) (add_front n ts e es)
unfolding add_front tracked
front-AddsOk bound n ts e es r lt le new = elim (Bool-cases (e.pkt_num + 1 == n)) [
  | inl joins ↦ (
    raised e n ts ∷ es,
    ground (arith, joins),
    record {
      ranges = ground (arith, joins);
      short = ground arith;
      exact = λ m. ground (arith, joins);
    },
  )
  | inr apart ↦ (
    new_entry n ts ∷ e ∷ es,
    ground (arith, apart, new),
    record {
      ranges = ground (arith, apart, new);
      short = ground arith;
      exact = λ m. ground (arith, apart, new);
    },
  )
]

last-AddsOk :
    (bound n ts : ℕ) (e : AcktrEntry)
    → Ranges bound (e ∷ [])
    → n < e.pkt_num
    → tracked n (e ∷ []) ≡ false
    → AddsOk bound n (e ∷ []) (add_last n ts e)
unfolding add_last tracked
last-AddsOk bound n ts e r lt new = elim (Bool-cases (e.pkt_num == n + e.len)) [
  | inl joins ↦ (
    record e { len = suc e.len } ∷ [],
    ground (arith, joins),
    record {
      ranges = ground (arith, joins);
      short = ground arith;
      exact = λ m. ground (arith, joins);
    },
  )
  | inr apart ↦ (
    e ∷ new_entry n ts ∷ [],
    ground (arith, apart, new),
    record {
      ranges = ground (arith, apart, new);
      short = ground arith;
      exact = λ m. ground (arith, apart, new);
    },
  )
]

merged-Ranges :
    (bound n : ℕ) (p e : AcktrEntry) (es : List AcktrEntry)
    → Ranges bound (p ∷ e ∷ es)
    → p.pkt_num ≡ n + p.len
    → e.pkt_num + 1 ≡ n
    → Ranges bound (record p { len = p.len + e.len + 1 } ∷ es)
merged-Ranges bound n p e es (lt, one, le, (lt', one', le', r)) down up =
    let same : p.pkt_num - (p.len + e.len + 1) ≡ e.pkt_num - e.len = omega (arith, down, up, le') in
    (lt, omega arith, omega (arith, down, up, le'), rw (same) r)

between-AddsOk :
    (bound n ts : ℕ) (p e : AcktrEntry) (es : List AcktrEntry)
    → Ranges bound (p ∷ e ∷ es)
    → n < p.pkt_num
    → e.pkt_num ≤ n
    → tracked n (p ∷ e ∷ es) ≡ false
    → AddsOk bound n (p ∷ e ∷ es) (add_between n ts p e es)
unfolding add_between tracked
between-AddsOk bound n ts p e es r lt le new = elim (Bool-cases (e.pkt_num + 1 == n)) [
  | inl up ↦ elim (Bool-cases (p.pkt_num == n + p.len)) [
    | inl down ↦ (
      record p { len = p.len + e.len + 1 } ∷ es,
      ground (arith, up, down),
      record {
        ranges = merged-Ranges bound n p e es r (ground (arith, down)) (ground (arith, up));
        short = ground arith;
        exact = λ m. ground (arith, up, down);
      },
    )
    | inr apart ↦ (
      p ∷ raised e n ts ∷ es,
      ground (arith, up, apart, new),
      record {
        ranges = ground (arith, up, apart, new);
        short = ground arith;
        exact = λ m. ground (arith, up, apart, new);
      },
    )
  ]
  | inr below ↦ elim (Bool-cases (p.pkt_num == n + p.len)) [
    | inl down ↦ (
      record p { len = suc p.len } ∷ e ∷ es,
      ground (arith, below, down, new),
      record {
        ranges = ground (arith, below, down, new);
        short = ground arith;
        exact = λ m. ground (arith, below, down, new);
      },
    )
    | inr apart ↦ (
      p ∷ new_entry n ts ∷ e ∷ es,
      ground (arith, below, apart, new),
      record {
        ranges = ground (arith, below, apart, new);
        short = ground arith;
        exact = λ m. ground (arith, below, apart, new);
      },
    )
  ]
]

behind-AddsOk :
    (bound n : ℕ) (e : AcktrEntry) (es : List AcktrEntry) (o : Outcome (List AcktrEntry))
    → Ranges bound (e ∷ es)
    → AddsOk (e.pkt_num - e.len) n es o
    → AddsOk bound n (e ∷ es) (do es' ← o; ok (e ∷ es'))
unfolding tracked
behind-AddsOk bound n e es o (lt, one, le, r) (es', is, adds) = (
  e ∷ es',
  ground (arith, is),
  record {
    ranges = (lt, one, le, adds.ranges);
    short = ground (arith, adds.short);
    exact = λ m. ground (arith, adds.exact m);
  },
)

pub add_ents-AddsOk :
    (bound n ts : ℕ) (es : List AcktrEntry)
    → Ranges bound es
    → n < bound
    → tracked n es ≡ false
    → AddsOk bound n es (add_ents n ts es)
unfolding add_ents tracked
add_ents-AddsOk bound n ts [] r lt new = (
  new_entry n ts ∷ [],
  refl,
  record { ranges = ground arith; short = ground arith; exact = λ m. ground arith },
)
add_ents-AddsOk bound n ts (e ∷ []) r lt new = elim (Bool-cases (ltb n e.pkt_num)) [
  | inl under ↦ rw (under) (last-AddsOk bound n ts e r (ground (arith, under)) new)
  | inr over ↦ rw (over) (front-AddsOk bound n ts e [] r lt (ground (arith, over)) new)
]
add_ents-AddsOk bound n ts (e ∷ f ∷ es) r lt new = elim (Bool-cases (ltb n e.pkt_num)) [
  | inl under ↦ elim (Bool-cases (ltb n f.pkt_num)) [
    | inl behind ↦
        let rest =
          add_ents-AddsOk (e.pkt_num - e.len) n ts (f ∷ es) r.3 (ground (arith, behind, r.3.0))
            (ground (arith, new)) in
        rw (under, behind) (behind-AddsOk bound n e (f ∷ es) (add_ents n ts (f ∷ es)) r rest)
    | inr found ↦
        rw (under, found)
          (between-AddsOk bound n ts e f es r (ground (arith, under)) (ground (arith, found)) new)
  ]
  | inr over ↦ rw (over) (front-AddsOk bound n ts e (f ∷ es) r lt (ground (arith, over)) new)
]
