-- ===== src/Pmtud/Examples.antt =====
-- A path of 1400 bytes: the first probe times out three times, and the second is acknowledged.
use zngtcp.Base.{ℕ, ◌<◌, ◌≡◌, List, [], ◌∷◌, some, true, ok, get_elem?, arith}
use zngtcp.Pmtud.{Pmtud, new, finished}
use zngtcp.Pmtud.Valid.{Settled}
use zngtcp.Pmtud.Run.{Event, run, run-new}
use zngtcp.Pmtud.Ends.{lost, new-lost}

abbrev three_probes : List ℕ
three_probes = 1472 ∷ 1392 ∷ 1500 ∷ []

abbrev lossy : List Event
lossy =
    Event.sent 100 0
    ∷ Event.expired 200
    ∷ Event.sent 100 200
    ∷ Event.expired 300
    ∷ Event.sent 100 300
    ∷ Event.expired 700
    ∷ Event.sent 100 700
    ∷ Event.acked 1392
    ∷ []

run-new_example :
    (s : Pmtud) × (run (new 1200 1500 9 three_probes) lossy ≡ ok s)
    × ((i p : ℕ) → i < s.mtu_idx → get_elem? s.probes i ≡ some p → Settled s p)
    × (finished s ≡ true → (i p : ℕ) → get_elem? s.probes i ≡ some p → Settled s p)
run-new_example =
    run-new 1200 1500 9 three_probes lossy (omega arith, (omega arith, (omega arith, tt)))

-- Nine packets are sent and lost.
abbrev times : List ℕ
times = 0 ∷ 300 ∷ 600 ∷ 900 ∷ 1200 ∷ 1500 ∷ 1800 ∷ 2100 ∷ 2400 ∷ []

new-lost_example :
    (s : Pmtud) × (run (new 1200 1500 9 three_probes) (lost 100 times) ≡ ok s) × (finished s ≡ true)
unfolding new
new-lost_example =
    new-lost 1200 1500 9 100 three_probes times
      (
        omega arith,
        (
          omega arith,
          (
            omega arith,
            (
              omega arith,
              (omega arith, (omega arith, (omega arith, (omega arith, (omega arith, tt))))),
            ),
          ),
        ),
      )
      (omega arith)
