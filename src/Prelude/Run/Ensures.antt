-- ===== src/Prelude/Run/Ensures.antt =====
-- What holds of an outcome: a condition on the result, and one on the fault, with a rule for each way to
-- build an outcome.
use skynet_cpp.Prelude.Tests.{if◌then◌else◌}
use mathlib.Core.Path.{◌≡◌, refl}
use mathlib.Core.Bool.{Bool, true, false}
use mathlib.Core.Logic.{◌⊎◌, inl, inr}
use skynet_cpp.Prelude.Run.{Fault, Run, ok, fault, ◌>>=◌}

abbrev pub Outcome {ℓ} : {A : Type ℓ} → (Fault → Type ℓ) → (A → Type ℓ) → Run A → Type ℓ
Outcome F P (ok a) = P a
Outcome F P (fault e) = F e

pub record Ensures {ℓ} {A : Type ℓ} (F : Fault → Type ℓ) (P : A → Type ℓ) (r : Run A) : Type ℓ where
  pub holds : Outcome F P r

module _ {ℓ} {A : Type ℓ} {F : Fault → Type ℓ} {P : A → Type ℓ} where
  pub Ensures-ok : {a : A} → P a → Ensures F P (ok a)
  Ensures-ok h = record { holds = h }

  pub Ensures-fault : {e : Fault} → F e → Ensures F P (fault e)
  Ensures-fault h = record { holds = h }

  pub Ensures-if :
      (b : Bool) {m n : Run A}
      → (b ≡ true → Ensures F P m)
      → (b ≡ false → Ensures F P n)
      → Ensures F P (if b then m else n)
  Ensures-if true h k = h refl
  Ensures-if false h k = k refl

  pub Ensures-map :
      {Q : A → Type ℓ} {m : Run A} → ((a : A) → P a → Q a) → Ensures F P m → Ensures F Q m
  Ensures-map {m = ok a} k h = record { holds = k a h.holds }
  Ensures-map {m = fault e} k h = record { holds = h.holds }

  -- to read an outcome
  pub Ensures-cases :
      (m : Run A)
      → Ensures F P m
      → ((a : A) × (m ≡ ok a) × P a) ⊎ ((e : Fault) × (m ≡ fault e) × F e)
  Ensures-cases (ok a) h = inl (a, refl, h.holds)
  Ensures-cases (fault e) h = inr (e, refl, h.holds)

module _ {ℓ} {A B : Type ℓ} {F : Fault → Type ℓ} {P : A → Type ℓ} {Q : B → Type ℓ} where
  pub Ensures-bind :
      {m : Run A} {f : A → Run B}
      → Ensures F P m
      → ((a : A) → P a → Ensures F Q (f a))
      → Ensures F Q (m >>= f)
  Ensures-bind {m = ok a} h k = k a h.holds
  Ensures-bind {m = fault e} h k = record { holds = h.holds }
