-- ===== src/Common/Outcome.antt =====
-- What a call ends in: a value, a failed `assert` that stops the process, or an access that C++ leaves
-- undefined.
use microservice_common.Base.{◌≡◌, Bool, true, false, List}
use microservice_common.Base.Counting.{SameItems}

pub data Outcome {ℓ} (A : Type ℓ) : Type ℓ where
  returned : A → Outcome A
  aborted : Outcome A
  undefined : Outcome A

infixl 5 ◌>>=◌
abbrev pub ◌>>=◌ {ℓ κ} : {A : Type ℓ} {B : Type κ} → Outcome A → (A → Outcome B) → Outcome B
returned a >>= f = f a
aborted >>= f = aborted
undefined >>= f = undefined

-- `assert( test )` before the rest.
abbrev pub asserting {ℓ} : {A : Type ℓ} → Bool → Outcome A → Outcome A
asserting true rest = rest
asserting false rest = aborted

-- A reader hands back these items, in some order.
abbrev pub Reads {ℓ} : {A : Type ℓ} → Outcome (List A) → List A → Type ℓ
Reads {A} r xs = (ys : List A) × (r ≡ returned ys) × SameItems ys xs
