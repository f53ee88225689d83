-- ===== src/Base/Codes.antt =====
-- Return values. A C function here returns an int: a negative error code of src/libusby.h, or a
-- number that is at least 0. `ok` carries the latter with what the function delivers through its
-- pointers, `err` an error code.
-- `fault` is a failed assert or an access outside an object; `stuck` is a loop that was given too
-- little fuel, and no function of the library returns it (the theorems say so).

-- enum libusby_error
pub data Error : Type 0 where
  io invalid_param access no_device not_found busy timeout overflow pipe interrupted : Error
  no_mem not_supported other : Error

pub data Outcome {ℓ} (A : Type ℓ) : Type ℓ where
  ok : A → Outcome A
  err : Error → Outcome A
  fault : Outcome A
  stuck : Outcome A

infixl 5 ◌>>=◌
abbrev pub ◌>>=◌ {ℓ κ} : {A : Type ℓ} {B : Type κ} → Outcome A → (A → Outcome B) → Outcome B
ok a >>= f = f a
err e >>= f = err e
fault >>= f = fault
stuck >>= f = stuck
