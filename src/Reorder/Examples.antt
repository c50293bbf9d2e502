-- ===== src/Reorder/Examples.antt =====
-- A stream with bytes 10 to 12 and 15 to 17 held, and a buffer that reaches over both.
use zngtcp.Base.{
  ℕ, ◌+◌, ◌-◌, max, ◌≤◌, ◌≡◌, refl, List, [], ◌∷◌, true, false, none, ok, length, drop, ltb,
  if◌then◌else◌, arith,
}
use zngtcp.Reorder.{Reorder, push, data_at, pop, remove_prefix}
use zngtcp.Reorder.Content.{IsSorted, byte_at}
use zngtcp.Reorder.Stored.{Stores, push-Stores}
use zngtcp.Reorder.Consume.{remove_prefix-keeps}
use zngtcp.Reorder.Pop.{pop-keeps}

abbrev two_islands : Reorder
two_islands = record {
  head =
      record { begin = 10; last = 12; buf = 1 ∷ 2 ∷ []; owned = false }
      ∷ record { begin = 15; last = 17; buf = 3 ∷ 4 ∷ []; owned = true }
      ∷ [];
  released = [];
}

abbrev over_both : List ℕ
over_both = 20 ∷ 21 ∷ 22 ∷ 23 ∷ 24 ∷ 25 ∷ 26 ∷ 27 ∷ 28 ∷ 29 ∷ []

two_islands-IsSorted : IsSorted 10 two_islands.head
unfolding IsSorted
two_islands-IsSorted = (omega arith, omega arith, refl, (omega arith, omega arith, refl, tt))

two_islands-IsSorted_0 : IsSorted 0 two_islands.head
unfolding IsSorted
two_islands-IsSorted_0 = (omega arith, omega arith, refl, (omega arith, omega arith, refl, tt))

push-Stores_example :
    (new : Reorder) × (nwrite : ℕ) × (push true two_islands over_both 9 10 true ≡ ok (new, nwrite))
    × IsSorted 0 new.head
    × Stores two_islands new (max 9 10) (9 + length over_both) (drop (10 - 9) over_both) true nwrite
push-Stores_example =
    push-Stores two_islands over_both 9 10 true two_islands-IsSorted_0 (omega arith)

remove_prefix-keeps_example :
    IsSorted 11 (remove_prefix two_islands 11).head
    × ((x : ℕ)
        → byte_at (remove_prefix two_islands 11).head x
          ≡ (if ltb x 11 then none else byte_at two_islands.head x))
remove_prefix-keeps_example = remove_prefix-keeps two_islands 11 two_islands-IsSorted_0

data_at-two_islands : data_at two_islands 10 ≡ ok (1 ∷ 2 ∷ [], length {A = ℕ} (1 ∷ 2 ∷ []))
unfolding data_at
data_at-two_islands = refl

pop-keeps_example :
    (new : Reorder) × (pop two_islands 10 1 ≡ ok new)
    × IsSorted (10 + 1) new.head
    × ((x : ℕ) → 10 + 1 ≤ x → byte_at new.head x ≡ byte_at two_islands.head x)
pop-keeps_example =
    pop-keeps two_islands 10 1 two_islands-IsSorted data_at-two_islands (omega arith) (omega arith)
