-- ===== src/GapTracker/Gaps.antt =====
-- What a list of gaps says of an offset.
use zngtcp.Base.{
  ℕ, ◌≤◌, ◌<◌, ◌≡◌, refl, List, [], ◌∷◌, ◌++◌, Bool, false, ◌&&◌, ◌||◌, ltb, leb, arith,
}
use zngtcp.GapTracker.{Range}

unfoldable pub covers : Range → ℕ → Bool
covers k x = leb k.begin x && ltb x k.end

unfoldable pub in_gaps : List Range → ℕ → Bool
unfolding covers
in_gaps [] x = false
in_gaps (k ∷ ks) x = covers k x || in_gaps ks x

-- Gaps are in order, not empty, and apart or adjacent.
unfoldable pub IsSorted : ℕ → List Range → Type 0
IsSorted lo [] = Unit
IsSorted lo (k ∷ ks) = (lo ≤ k.begin) × (k.begin < k.end) × IsSorted k.end ks

pub in_gaps-append :
    (front bs : List Range) (x : ℕ) → in_gaps (front ++ bs) x ≡ (in_gaps front x || in_gaps bs x)
unfolding in_gaps
in_gaps-append [] bs x = refl
in_gaps-append (a ∷ front) bs x = ground (arith, in_gaps-append front bs x)

pub in_gaps-below :
    (lo : ℕ) (ks : List Range) (x : ℕ) → IsSorted lo ks → x < lo → in_gaps ks x ≡ false
unfolding in_gaps covers IsSorted
in_gaps-below lo [] x s h = refl
in_gaps-below lo (k ∷ ks) x (s1, s2, s3) h =
    ground (arith, s1, s2, h, in_gaps-below k.end ks x s3 (omega (arith, s1, s2, h)))

pub IsSorted-weaken : (lo lo' : ℕ) (ks : List Range) → IsSorted lo ks → lo' ≤ lo → IsSorted lo' ks
unfolding IsSorted
IsSorted-weaken lo lo' [] s h = tt
IsSorted-weaken lo lo' (k ∷ ks) (s1, s2, s3) h = (omega (arith, s1, h), s2, s3)
