-- ===== src/WindowFilter/Examples.antt =====
-- A window of 10: the best sample is too old, and the second one takes its place.
use zngtcp.Base.{◌-◌, ◌≤◌, ◌≡◌, refl, List, [], ◌∷◌, arith}
use zngtcp.WindowFilter.{
  Sample, get_best, window_filter_init, window_filter_reset, window_filter_update, age,
  raise_estimates, promote, renew,
}
use zngtcp.WindowFilter.Best.{filtered, filtered-IsBest}
use zngtcp.WindowFilter.Estimates.{IsBest}
use zngtcp.WindowFilter.Kept.{Covers}

abbrev at_12 : Sample
at_12 = record { sample = 20; time = 12 }

abbrev samples : List Sample
samples = record { sample = 50; time = 5 } ∷ record { sample = 70; time = 1 } ∷ []

second_best : get_best (filtered 10 (at_12 ∷ samples)) ≡ 50
unfolding get_best filtered window_filter_init window_filter_reset window_filter_update age
    raise_estimates promote renew
second_best = refl

filtered-IsBest_example :
    (best : Sample) × (get_best (filtered 10 (at_12 ∷ samples)) ≡ best.sample)
    × IsBest best (at_12 ∷ samples)
    × (12 - best.time ≤ 10)
    × Covers 10 12 best (at_12 ∷ samples) (at_12 ∷ samples)
filtered-IsBest_example =
    filtered-IsBest 10 at_12 samples (omega arith, (omega arith, tt)) (omega arith)
      (omega arith, (omega arith, tt))
