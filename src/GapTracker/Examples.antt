-- ===== src/GapTracker/Examples.antt =====
-- A tracker that has seen the offsets 0 to 4 and 8 and 9.
use zngtcp.Base.{
  ℕ, ◌+◌, ◌/◌, ◌≡◌, refl, ◌⊎◌, List, [], ◌∷◌, true, false, not, ◌&&◌, ok, err, stream_in_use, leb,
  ltb, ◌==◌, arith,
}
use zngtcp.GapTracker.{Range, initialised, push, idtr_open}
use zngtcp.GapTracker.Gaps.{in_gaps, covers, IsSorted}
use zngtcp.GapTracker.Cut.{push-in_gaps}
use zngtcp.GapTracker.Ids.{idtr_open-in_gaps}
use zngtcp.GapTracker.Ids.Pushed.{IsTracker}

abbrev two_gaps : List Range
two_gaps = record { begin = 5; end = 8 } ∷ record { begin = 10; end = 18446744073709551615 } ∷ []

two_gaps-IsSorted : IsSorted 0 (initialised two_gaps)
unfolding IsSorted initialised
two_gaps-IsSorted = (omega arith, omega arith, (omega arith, omega arith, tt))

two_gaps-IsTracker : IsTracker two_gaps
unfolding in_gaps covers initialised
two_gaps-IsTracker = (two_gaps-IsSorted, refl)

push-in_gaps_example :
    IsSorted 0 (push two_gaps 7 6)
    × ((x : ℕ)
        → in_gaps (push two_gaps 7 6) x
          ≡ (in_gaps (initialised two_gaps) x && not (leb 7 x && ltb x (7 + 6))))
push-in_gaps_example = push-in_gaps two_gaps 7 6 two_gaps-IsSorted (omega arith)

idtr_open-in_gaps_example :
    ((idtr_open two_gaps 25 ≡ err stream_in_use)
      × (in_gaps (initialised two_gaps) (25 / 4) ≡ false))
    ⊎ ((in_gaps (initialised two_gaps) (25 / 4) ≡ true)
        × (new : List Range) × (idtr_open two_gaps 25 ≡ ok new)
        × IsTracker new
        × ((x : ℕ)
            → in_gaps (initialised new) x
              ≡ (in_gaps (initialised two_gaps) x && not (x == 25 / 4))))
idtr_open-in_gaps_example = idtr_open-in_gaps two_gaps 25 two_gaps-IsTracker (omega arith)
