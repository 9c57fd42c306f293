-- ===== src/Prelude/Run.antt =====
-- The outcome of code that can stop: by a failed `assert`, a null or uninitialised pointer, a value that was never written, a signed sum out of range, an index out of
-- bounds, an access to a deleted object, an exception, a lock that the thread itself holds, or because the fuel of the
-- model ran out.
pub mod Ensures
use skynet_cpp.Prelude.Tests.{if◌then◌else◌}
use mathlib.Core.Path.{◌≡◌, refl}
use mathlib.Core.Logic.{◌⊎◌, inl, inr}
use mathlib.Core.Bool.{Bool}

pub data Fault : Type 0 where
  assertion : Fault
  null_pointer : Fault
  out_of_bounds : Fault
  deadlock : Fault
  uninitialised_pointer : Fault
  uninitialised_value : Fault
  signed_overflow : Fault
  deleted_object : Fault
  uncaught_exception : Fault
  no_fuel : Fault

pub data Run {ℓ} (A : Type ℓ) : Type ℓ where
  ok : A → Run A
  fault : Fault → Run A

infixl 5 ◌>>=◌ ◌>>◌
abbrev pub ◌>>=◌ {ℓ κ} : {A : Type ℓ} {B : Type κ} → Run A → (A → Run B) → Run B
ok a >>= f = f a
fault e >>= f = fault e

abbrev pub ◌>>◌ {ℓ} : {B : Type ℓ} → Run (Unit {0}) → Run B → Run B
m >> k = m >>= λ _. k

-- `assert(b)`
abbrev pub assert : Bool → Run (Unit {0})
assert b = if b then ok tt else fault assertion

pub Run-cases {ℓ} :
    {A : Type ℓ} (r : Run A) → ((a : A) × (r ≡ ok a)) ⊎ ((e : Fault) × (r ≡ fault e))
Run-cases (ok a) = inl (a, refl)
Run-cases (fault e) = inr (e, refl)
