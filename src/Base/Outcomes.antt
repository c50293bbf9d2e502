-- ===== src/Base/Outcomes.antt =====
-- The result of a fallible function of the library.
use mathlib.Core.Bool.{Bool, true, false}

-- The NGTCP2_ERR_* codes that the modelled functions return.
pub data Error : Type 0 where
  invalid_argument nobuf proto ack_frame stream_in_use frame_encoding invalid_state nomem : Error
  malformed_transport_param buf_contract callback_failure : Error

-- `fault` is no value of the source: it stands for a read outside the buffer, a failed `assert`, or
-- a call of `ngtcp2_unreachable`.
pub data Outcome {ℓ} (A : Type ℓ) : Type ℓ where
  ok : A → Outcome A
  err : Error → Outcome A
  fault : Outcome A

infixl 5 ◌>>=◌ ◌>>◌
abbrev pub ◌>>=◌ {ℓ κ} : {A : Type ℓ} {B : Type κ} → Outcome A → (A → Outcome B) → Outcome B
ok a >>= f = f a
err e >>= f = err e
fault >>= f = fault

abbrev pub ◌>>◌ {ℓ} : {B : Type ℓ} → Outcome (Unit {0}) → Outcome B → Outcome B
m >> k = m >>= λ _. k

-- `if (!b) return e;`
abbrev pub guard : Bool → Error → Outcome (Unit {0})
guard true e = ok tt
guard false e = err e

-- `assert(b);`
abbrev pub assert : Bool → Outcome (Unit {0})
assert true = ok tt
assert false = fault
