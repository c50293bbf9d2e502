-- ===== src/WindowFilter.antt =====
-- lib/ngtcp2_window_filter.c: the best sample of a window, by three estimates. Samples and times are
-- 64-bit integers.
pub mod Estimates
pub mod Kept
pub mod Best
pub mod Examples
use zngtcp.Base.{ℕ, ◌+◌, ◌-◌, ◌/◌, ◌%◌, ◌^◌, Bool, ◌&&◌, ◌||◌, ltb, ◌==◌, if◌then◌else◌}

abbrev pub uint64_max : ℕ
uint64_max = 2 ^ 64 - 1

pub record Sample : Type 0 where
  pub sample : ℕ
  pub time : ℕ

-- `estimates` has three elements.
pub record WindowFilter : Type 0 where
  pub window_length : ℕ
  pub first : Sample
  pub second : Sample
  pub third : Sample

abbrev unset : Sample
unset = record { sample = uint64_max; time = uint64_max }

unfoldable pub window_filter_init : ℕ → WindowFilter
window_filter_init window_length = record {
  window_length = window_length;
  first = unset;
  second = unset;
  third = unset;
}

unfoldable pub window_filter_reset : WindowFilter → Sample → WindowFilter
window_filter_reset wf new = record wf { first = new; second = new; third = new }

-- `new_time - estimate.time`
unfoldable pub age : ℕ → Sample → ℕ
age new_time e = (new_time + 2 ^ 64 - e.time) % 2 ^ 64

-- A sample that is better than the second or the third estimate
unfoldable pub raise_estimates : WindowFilter → Sample → WindowFilter
raise_estimates wf new =
    if ltb wf.second.sample new.sample
    then record wf { second = new; third = new }
    else if ltb wf.third.sample new.sample
    then record wf { third = new }
    else wf

-- The best estimate is too old.
unfoldable pub promote : WindowFilter → Sample → WindowFilter
unfolding age
promote wf new =
    if ltb wf.window_length (age new.time wf.second)
    then record wf { first = wf.third; second = new; third = new }
    else record wf { first = wf.second; second = wf.third; third = new }

-- A part of the window has passed without a better sample.
unfoldable pub renew : WindowFilter → Sample → WindowFilter
unfolding age
renew wf new =
    if wf.second.sample == wf.first.sample && ltb (wf.window_length / 4) (age new.time wf.second)
    then record wf { second = new; third = new }
    else if wf.third.sample == wf.second.sample
        && ltb (wf.window_length / 2) (age new.time wf.third)
    then record wf { third = new }
    else wf

unfoldable pub window_filter_update : WindowFilter → Sample → WindowFilter
unfolding window_filter_reset age raise_estimates promote renew
window_filter_update wf new =
    let raised = raise_estimates wf new in
    if (wf.first.sample == uint64_max || ltb wf.first.sample new.sample)
      || ltb wf.window_length (age new.time wf.third)
    then window_filter_reset wf new
    else if ltb raised.window_length (age new.time raised.first)
    then promote raised new
    else renew raised new

unfoldable pub get_best : WindowFilter → ℕ
get_best wf = wf.first.sample
