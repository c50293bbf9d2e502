-- ===== src/Reorder/Content.antt =====
-- What a list of entries holds: the byte at each offset of the stream.
use zngtcp.Base.{
  ℕ, ◌+◌, ◌-◌, ◌≤◌, ◌<◌, ◌≡◌, refl, List, [], ◌∷◌, Option, none, length, get_elem?, ltb, arith,
  if◌then◌else◌,
}
use zngtcp.Reorder.{Entry}

-- Entries are in order, do not overlap, are not empty, and have as many bytes as their range.
unfoldable pub IsSorted : ℕ → List Entry → Type 0
IsSorted lo [] = Unit
IsSorted lo (ent ∷ es) =
    (lo ≤ ent.begin)
    × (ent.begin < ent.last)
    × (ent.begin + length ent.buf ≡ ent.last)
    × IsSorted ent.last es

-- The byte at `x` of a buffer that starts at `begin`.
unfoldable pub byte_in : ℕ → List ℕ → ℕ → Option ℕ
byte_in begin buf x = if ltb x begin then none else get_elem? buf (x - begin)

unfoldable pub byte_at : List Entry → ℕ → Option ℕ
unfolding byte_in
byte_at [] x = none
byte_at (ent ∷ es) x = if ltb x ent.last then byte_in ent.begin ent.buf x else byte_at es x

-- Nothing is held below the first entry.
pub byte_at-below :
    (lo : ℕ) (es : List Entry) (x : ℕ) → IsSorted lo es → x < lo → byte_at es x ≡ none
unfolding byte_at IsSorted byte_in
byte_at-below lo [] x s h = refl
byte_at-below lo (ent ∷ es) x s h = ground (arith, s.0, s.1, h)

pub IsSorted-weaken : (lo lo' : ℕ) (es : List Entry) → IsSorted lo es → lo' ≤ lo → IsSorted lo' es
unfolding IsSorted
IsSorted-weaken lo lo' [] s h = tt
IsSorted-weaken lo lo' (ent ∷ es) s h = (omega (arith, s.0, h), s.1, s.2, s.3)
