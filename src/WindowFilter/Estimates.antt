-- ===== src/WindowFilter/Estimates.antt =====
-- The three estimates of lib/ngtcp2_window_filter.c are samples, and none that came later is better.
use zngtcp.Base.{
  ℕ, suc, ◌-◌, ◌^◌, ◌≤◌, ◌<◌, ◌≡◌, refl, inl, inr, List, ◌∷◌, some, ◌&&◌, Bool-cases, ltb, ◌==◌,
  ◌/◌, take, get_elem?, All, arith,
}
use zngtcp.WindowFilter.{Sample, WindowFilter, age, raise_estimates, promote, renew}

-- `e` is one of the samples, and none that came later is better.
pub record IsBest (e : Sample) (samples : List Sample) : Type 0 where
  pub index : ℕ
  pub taken : get_elem? samples index ≡ some e
  pub later : All (λ s. s.sample ≤ e.sample) (take index samples)

pub now-IsBest : (new : Sample) (samples : List Sample) → IsBest new (new ∷ samples)
now-IsBest new samples = record { index = 0; taken = refl; later = tt }

IsBest-later :
    (e new : Sample) (samples : List Sample)
    → new.sample ≤ e.sample
    → IsBest e samples
    → IsBest e (new ∷ samples)
IsBest-later e new samples le b = record {
  index = suc b.index;
  taken = b.taken;
  later = (le, b.later);
}

-- The estimates are such samples, from the best to the worst, not taken after `now`.
pub record Estimates (now : ℕ) (samples : List Sample) (wf : WindowFilter) : Type 0 where
  pub first : IsBest wf.first samples
  pub second : IsBest wf.second samples
  pub third : IsBest wf.third samples
  pub falls : (wf.second.sample ≤ wf.first.sample) × (wf.third.sample ≤ wf.second.sample)
  pub past : (wf.first.time ≤ now) × ((wf.second.time ≤ now) × (wf.third.time ≤ now))
  pub order : wf.first.time ≤ wf.third.time

pub age-eq : (now : ℕ) (e : Sample) → e.time ≤ now → now < 2 ^ 64 → age now e ≡ now - e.time
unfolding age
age-eq now e le lt = ground arith

pub raised-Estimates :
    (wf : WindowFilter) (new : Sample) (samples : List Sample)
    → Estimates new.time samples wf
    → new.sample ≤ wf.first.sample
    → Estimates new.time (new ∷ samples) (raise_estimates wf new)
      × (new.sample ≤ (raise_estimates wf new).third.sample)
unfolding raise_estimates
raised-Estimates wf new samples e le =
    let first = IsBest-later wf.first new samples le e.first in
    let now = now-IsBest new samples in
    elim (Bool-cases (ltb wf.second.sample new.sample)) [
      | inl better ↦ rw (better) (
        record {
          first = first;
          second = now;
          third = now;
          falls = (le, omega arith);
          past = (e.past.0, (omega arith, omega arith));
          order = e.past.0;
        },
        omega arith,
      )
      | inr worse ↦
          let second = IsBest-later wf.second new samples (ground (arith, worse)) e.second in
          elim (Bool-cases (ltb wf.third.sample new.sample)) [
            | inl better ↦
                rw (worse, better)
                  (
                    record {
                      first = first;
                      second = second;
                      third = now;
                      falls = (e.falls.0, ground (arith, worse));
                      past = (e.past.0, (e.past.1.0, omega arith));
                      order = e.past.0;
                    },
                    omega arith,
                  )
            | inr last ↦
                let third = IsBest-later wf.third new samples (ground (arith, last)) e.third in
                rw (worse, last)
                  (
                    record {
                      first = first;
                      second = second;
                      third = third;
                      falls = e.falls;
                      past = e.past;
                      order = e.order;
                    },
                    ground (arith, last),
                  )
          ]
    ]

-- An estimate that is not older than the window
abbrev pub IsFresh : ℕ → WindowFilter → Type 0
IsFresh now wf = now - wf.first.time ≤ wf.window_length

module _ (wf : WindowFilter) (new : Sample) (samples : List Sample)
    (e : Estimates new.time (new ∷ samples) wf) (le : new.sample ≤ wf.third.sample)
    (small : new.time < 2 ^ 64) where
  pub promote-Estimates :
      new.time - wf.third.time ≤ wf.window_length
      → Estimates new.time (new ∷ samples) (promote wf new) × IsFresh new.time (promote wf new)
  unfolding promote
  promote-Estimates fresh =
      let now = now-IsBest new samples in
      let aged = age-eq new.time wf.second e.past.1.0 small in
      elim (Bool-cases (ltb wf.window_length (age new.time wf.second))) [
        | inl old ↦ rw (old) (
          record {
            first = e.third;
            second = now;
            third = now;
            falls = (le, omega arith);
            past = (e.past.1.1, (omega arith, omega arith));
            order = e.past.1.1;
          },
          fresh,
        )
        | inr young ↦ rw (young) (
          record {
            first = e.second;
            second = e.third;
            third = now;
            falls = (e.falls.1, le);
            past = (e.past.1.0, (e.past.1.1, omega arith));
            order = e.past.1.0;
          },
          ground (arith, young, aged),
        )
      ]

  pub renew-Estimates :
      IsFresh new.time wf
      → Estimates new.time (new ∷ samples) (renew wf new) × IsFresh new.time (renew wf new)
  unfolding renew
  renew-Estimates fresh =
      let now = now-IsBest new samples in
      let quarter =
        wf.second.sample == wf.first.sample
        && ltb (wf.window_length / 4) (age new.time wf.second) in
      let half =
        wf.third.sample == wf.second.sample && ltb (wf.window_length / 2) (age new.time wf.third) in
      elim (Bool-cases quarter) [
        | inl passed ↦ rw (passed) (
          record {
            first = e.first;
            second = now;
            third = now;
            falls = (omega (arith, le, e.falls.0, e.falls.1), omega arith);
            past = (e.past.0, (omega arith, omega arith));
            order = e.past.0;
          },
          fresh,
        )
        | inr before ↦ elim (Bool-cases half) [
          | inl passed ↦
              rw (before, passed)
                (
                  record {
                    first = e.first;
                    second = e.second;
                    third = now;
                    falls = (e.falls.0, omega (arith, le, e.falls.1));
                    past = (e.past.0, (e.past.1.0, omega arith));
                    order = e.past.0;
                  },
                  fresh,
                )
          | inr short ↦ rw (before, short) (e, fresh)
        ]
      ]
