-- ===== src/RingBuf/Examples.antt =====
-- A full buffer of four slots whose first element is in slot 2.
use zngtcp.Base.{ℕ, suc, ◌+◌, ◌<◌, min, ◌≡◌, ◌≢◌, ok, arith}
use zngtcp.RingBuf.{RingBuf, push_front, get}
use zngtcp.RingBuf.Order.{IsValid, push_front-get}

abbrev four_slots : RingBuf
four_slots = record { mask = 3; first = 2; len = 4 }

four_slots-IsValid : IsValid four_slots
four_slots-IsValid = record { first_lt = omega arith; len_le = omega arith }

push_front-get_example :
    IsValid (push_front four_slots).0
    × (get (push_front four_slots).0 0 ≡ ok (push_front four_slots).1)
    × ((push_front four_slots).0.len ≡ min (4 + 1) (3 + 1))
    × ((i : ℕ)
        → suc i < (push_front four_slots).0.len
        → (slot : ℕ) × (get (push_front four_slots).0 (suc i) ≡ ok slot)
          × (get four_slots i ≡ ok slot)
          × (slot ≢ (push_front four_slots).1))
push_front-get_example = push_front-get four_slots four_slots-IsValid
