-- ===== src/WindowFilter/Best.antt =====
-- What the best estimate of lib/ngtcp2_window_filter.c is, of all the samples so far.
use zngtcp.Base.{
  ℕ, ◌-◌, ◌^◌, ◌≤◌, ◌<◌, ◌≡◌, refl, ◌∙◌, zero, suc, inl, inr, List, [], ◌∷◌, ◌||◌, Bool-cases, ltb,
  ◌==◌, get_elem?, some, All, arith,
}
use zngtcp.WindowFilter.{
  uint64_max, Sample, WindowFilter, window_filter_init, window_filter_reset, age, raise_estimates,
  promote, renew, window_filter_update, get_best,
}
use zngtcp.WindowFilter.Kept.{Covers, head-best, update-Covers}
use zngtcp.WindowFilter.Estimates.{
  IsBest, now-IsBest, Estimates, age-eq, raised-Estimates, IsFresh, promote-Estimates,
  renew-Estimates,
}

-- The filter after the samples, the latest of which comes first
unfoldable pub filtered : ℕ → List Sample → WindowFilter
filtered window_length [] = window_filter_init window_length
filtered window_length (new ∷ samples) = window_filter_update (filtered window_length samples) new

-- Time does not go back.
abbrev pub IsTimed : ℕ → List Sample → Type 0
IsTimed now [] = Unit
IsTimed now (s ∷ samples) = (s.time ≤ now) × IsTimed s.time samples

reset-Estimates :
    (wf : WindowFilter) (new : Sample) (samples : List Sample)
    → Estimates new.time (new ∷ samples) (window_filter_reset wf new)
      × IsFresh new.time (window_filter_reset wf new)
unfolding window_filter_reset
reset-Estimates wf new samples =
    let now = now-IsBest new samples in
    (
      record {
        first = now;
        second = now;
        third = now;
        falls = (omega arith, omega arith);
        past = (omega arith, (omega arith, omega arith));
        order = omega arith;
      },
      omega arith,
    )

raised_young :
    (wf : WindowFilter) (new : Sample)
    → new.time - wf.third.time ≤ wf.window_length
    → new.time - (raise_estimates wf new).third.time ≤ (raise_estimates wf new).window_length
unfolding raise_estimates
raised_young wf new young = ground (arith, young)

update-Estimates :
    (wf : WindowFilter) (new : Sample) (samples : List Sample)
    → Estimates new.time samples wf
    → new.time < 2 ^ 64
    → Estimates new.time (new ∷ samples) (window_filter_update wf new)
      × IsFresh new.time (window_filter_update wf new)
unfolding window_filter_update
update-Estimates wf new samples e small =
    let starts =
      (wf.first.sample == uint64_max || ltb wf.first.sample new.sample)
      || ltb wf.window_length (age new.time wf.third) in
    let raised = raise_estimates wf new in
    elim (Bool-cases starts) [
      | inl again ↦ rw (again) (reset-Estimates wf new samples)
      | inr on ↦
          let (e', le) = raised-Estimates wf new samples e (ground (arith, on)) in
          let aged = age-eq new.time wf.third e.past.1.1 small in
          let aged' = age-eq new.time raised.first e'.past.0 small in
          elim (Bool-cases (ltb raised.window_length (age new.time raised.first))) [
            | inl old ↦
                rw (on, old)
                  (promote-Estimates raised new samples e' le small
                    (raised_young wf new (ground (arith, on, aged))))
            | inr young ↦
                rw (on, young)
                  (renew-Estimates raised new samples e' le small (ground (arith, young, aged')))
          ]
    ]

first-IsFiltered :
    (window_length : ℕ) (new : Sample)
    → Estimates new.time (new ∷ []) (window_filter_update (window_filter_init window_length) new)
      × IsFresh new.time (window_filter_update (window_filter_init window_length) new)
unfolding window_filter_update window_filter_init
first-IsFiltered window_length new = reset-Estimates (window_filter_init window_length) new []

window_length-update :
    (wf : WindowFilter) (new : Sample)
    → (window_filter_update wf new).window_length ≡ wf.window_length
unfolding window_filter_update window_filter_reset raise_estimates promote renew
window_length-update wf new = ground arith

Estimates-later :
    (before now : ℕ) (samples : List Sample) (wf : WindowFilter)
    → before ≤ now
    → Estimates before samples wf
    → Estimates now samples wf
Estimates-later before now samples wf le e = record {
  first = e.first;
  second = e.second;
  third = e.third;
  falls = e.falls;
  past =
      (omega (arith, le, e.past.0), (omega (arith, le, e.past.1.0), omega (arith, le, e.past.1.1)));
  order = e.order;
}

-- What is known of the filter after the samples at the time `now`
record IsFiltered (window_length now : ℕ) (samples : List Sample) (wf : WindowFilter) : Type 0 where
  pub estimates : Estimates now samples wf
  pub fresh : IsFresh now wf
  pub same : wf.window_length ≡ window_length
  pub covers : Covers window_length now wf.first samples samples

first_IsBest-set :
    (e : Sample) (samples : List Sample) (i : ℕ)
    → get_elem? samples i ≡ some e
    → All (λ s. s.sample < uint64_max) samples
    → e.sample < uint64_max
first_IsBest-set e [] i at small = absurd (ground (arith, at))
first_IsBest-set e (s ∷ samples) zero at small = ground (arith, at, small.0)
first_IsBest-set e (s ∷ samples) (suc i) at small = first_IsBest-set e samples i at small.1

filtered-IsFiltered :
    (window_length : ℕ) (new : Sample) (samples : List Sample)
    → IsTimed new.time samples
    → new.time < 2 ^ 64
    → All (λ s. s.sample < uint64_max) samples
    → IsFiltered window_length new.time (new ∷ samples) (filtered window_length (new ∷ samples))
unfolding filtered window_filter_init
filtered-IsFiltered window_length new [] timed small set =
    let (estimates, fresh) = first-IsFiltered window_length new in
    record {
      estimates = estimates;
      fresh = fresh;
      same = window_length-update (window_filter_init window_length) new;
      covers = (inl (head-best estimates.first), tt);
    }
filtered-IsFiltered window_length new (s ∷ samples) timed small set =
    let wf = filtered window_length (s ∷ samples) in
    let v =
      filtered-IsFiltered window_length s samples timed.1 (omega (arith, timed.0, small)) set.1 in
    let now = Estimates-later s.time new.time (s ∷ samples) wf timed.0 v.estimates in
    let (estimates, fresh) = update-Estimates wf new (s ∷ samples) now small in
    let best = v.estimates.first in
    record {
      estimates = estimates;
      fresh = fresh;
      same = window_length-update wf new ∙ v.same;
      covers =
          update-Covers window_length wf new s.time (s ∷ samples) v.same timed.0 small now
            (first_IsBest-set wf.first (s ∷ samples) best.index best.taken set) estimates.first
            v.covers;
    }

-- After samples whose times of 64 bits do not go back, and of which those before the latest are
-- below 2 ^ 64 - 1, the mark of an unset estimate, the best estimate of a new filter is one of them
-- that is not older than the window, and no later sample is better. It is at least as good as every
-- sample, earlier ones included, but for those that a sample which is older than the window is at
-- least as good as: so a sample that is better than all that have left the window is never better
-- than the best estimate.
pub filtered-IsBest :
    (window_length : ℕ) (new : Sample) (samples : List Sample)
    → IsTimed new.time samples
    → new.time < 2 ^ 64
    → All (λ s. s.sample < uint64_max) samples
    → (best : Sample) × (get_best (filtered window_length (new ∷ samples)) ≡ best.sample)
      × IsBest best (new ∷ samples)
      × (new.time - best.time ≤ window_length)
      × Covers window_length new.time best (new ∷ samples) (new ∷ samples)
unfolding get_best
filtered-IsBest window_length new samples timed small set =
    let v = filtered-IsFiltered window_length new samples timed small set in
    (
      (filtered window_length (new ∷ samples)).first,
      refl,
      v.estimates.first,
      omega (arith, v.fresh, v.same),
      v.covers,
    )
