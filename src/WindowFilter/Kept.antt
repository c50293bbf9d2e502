-- ===== src/WindowFilter/Kept.antt =====
-- The best estimate of lib/ngtcp2_window_filter.c is kept while it is in the window.
use zngtcp.Base.{
  ℕ, zero, suc, ◌-◌, ◌^◌, ◌≤◌, ◌<◌, ◌≡◌, inl, inr, ◌⊎◌, List, ◌∷◌, some, false, Bool-cases, ltb,
  get_elem?, take, All, All-map, arith,
}
use zngtcp.WindowFilter.{
  uint64_max, Sample, WindowFilter, window_filter_reset, age, raise_estimates, promote, renew,
  window_filter_update,
}
use zngtcp.WindowFilter.Estimates.{IsBest, Estimates, age-eq}

-- One of the samples is at least as good as `s`, and is older than the window at the time `now`.
pub record IsOutdone (window_length now : ℕ) (samples : List Sample) (s : Sample) : Type 0 where
  pub better : Sample
  pub index : ℕ
  pub taken : get_elem? samples index ≡ some better
  pub least : s.sample ≤ better.sample
  pub left : window_length < now - better.time

-- `e` is at least as good as each sample, but for those that a sample outside of the window outdoes.
abbrev pub Covers : ℕ → ℕ → Sample → List Sample → List Sample → Type 0
Covers window_length now e samples =
    All (λ s. (s.sample ≤ e.sample) ⊎ IsOutdone window_length now samples s)

first-kept :
    (wf : WindowFilter) (new : Sample) (samples : List Sample)
    → Estimates new.time samples wf
    → wf.first.sample < uint64_max
    → new.time < 2 ^ 64
    → (wf.first.sample ≤ (window_filter_update wf new).first.sample)
      ⊎ (wf.window_length < new.time - wf.first.time)
unfolding window_filter_update window_filter_reset raise_estimates promote renew
first-kept wf new samples e set small = elim (Bool-cases (ltb wf.first.sample new.sample)) [
  | inl better ↦ inl (ground (arith, better))
  | inr worse ↦
      let aged = age-eq new.time wf.first e.past.0 small in
      let aged' = age-eq new.time wf.third e.past.1.1 small in
      elim (Bool-cases (ltb wf.window_length (age new.time wf.first))) [
        | inl old ↦ inr (ground (arith, old, aged))
        | inr young ↦
            let in_window : ltb wf.window_length (age new.time wf.third) ≡ false =
              ground (arith, young, aged, aged', e.order) in
            inl (ground (arith, worse, young, in_window, set))
      ]
]

head-le :
    (e new : Sample) (samples : List Sample) (i : ℕ)
    → get_elem? (new ∷ samples) i ≡ some e
    → All (λ s. s.sample ≤ e.sample) (take i (new ∷ samples))
    → new.sample ≤ e.sample
head-le e new samples zero is later = ground (arith, is)
head-le e new samples (suc i) is later = later.0

pub head-best :
    {e new : Sample} {samples : List Sample} → IsBest e (new ∷ samples) → new.sample ≤ e.sample
head-best {e} {new} {samples} b = head-le e new samples b.index b.taken b.later

-- A sample that was covered stays so.
still :
    (window_length before : ℕ) (e f new : Sample) (samples : List Sample)
    → before ≤ new.time
    → IsBest e samples
    → (e.sample ≤ f.sample) ⊎ (window_length < new.time - e.time)
    → (s : Sample) → (s.sample ≤ e.sample) ⊎ IsOutdone window_length before samples s
    → (s.sample ≤ f.sample) ⊎ IsOutdone window_length new.time (new ∷ samples) s
still window_length before e f new samples le b (inl kept) s (inl covered) =
    inl (omega (arith, kept, covered))
still window_length before e f new samples le b (inr old) s (inl covered) =
    inr (record { better = e; index = suc b.index; taken = b.taken; least = covered; left = old })
still window_length before e f new samples le b kept s (inr out) = inr (record {
  better = out.better;
  index = suc out.index;
  taken = out.taken;
  least = out.least;
  left = omega (arith, out.left, le);
})

pub update-Covers :
    (window_length : ℕ) (wf : WindowFilter) (new : Sample) (before : ℕ) (samples : List Sample)
    → wf.window_length ≡ window_length
    → before ≤ new.time
    → new.time < 2 ^ 64
    → Estimates new.time samples wf
    → wf.first.sample < uint64_max
    → IsBest (window_filter_update wf new).first (new ∷ samples)
    → Covers window_length before wf.first samples samples
    → Covers window_length new.time
        (window_filter_update wf new).first
        (new ∷ samples)
        (new ∷ samples)
update-Covers window_length wf new before samples same le small e set best covers =
    let first = (window_filter_update wf new).first in
    let kept : (wf.first.sample ≤ first.sample) ⊎ (window_length < new.time - wf.first.time) =
      elim (first-kept wf new samples e set small) [
        | inl higher ↦ inl higher
        | inr old ↦ inr (omega (arith, old, same))
      ] in
    (
      inl (head-best best),
      All-map _ _ samples (still window_length before wf.first first new samples le e.first kept)
          covers,
    )
