-- ===== src/Conv/Bytes.antt =====
-- A test for the bytes that the readers of lib/ngtcp2_conv.c take.
use zngtcp.Base.{ℕ, List, [], ◌∷◌, Bool, true, ◌&&◌, ltb, ◌≡◌, All, arith}
use zngtcp.Conv.{IsByte}

unfoldable pub are_bytes : List ℕ → Bool
are_bytes [] = true
are_bytes (b ∷ p) = ltb b 256 && are_bytes p

pub are_bytes_sound : (p : List ℕ) → are_bytes p ≡ true → All IsByte p
unfolding are_bytes
are_bytes_sound [] h = tt
are_bytes_sound (b ∷ p) h = (ground arith, are_bytes_sound p (ground arith))
