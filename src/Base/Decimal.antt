-- ===== src/Base/Decimal.antt =====
-- `std::to_string` of an unsigned number: its decimal digits, the first one first.
use Prim.Native.Nat.{ℕ, zero, suc, ◌+◌, ◌*◌, ◌/◌, ◌%◌, ◌<◌}
use Prim.Native.String.{String, slice, ◌++◌ as text_append}
use mathlib.Core.Path.{◌≡◌, refl, ap}
use mathlib.Core.Bool.{true, false}
use mathlib.Core.List.{List, [], ◌∷◌}
use native.Mathlib.Omega.{arith}
use microservice_common.Base.Tests.{ltb}
use microservice_common.Base.Lists.{All, is_empty}

abbrev digits_onto : ℕ → ℕ → List ℕ → List ℕ
digits_onto zero n rest = rest
digits_onto (suc fuel) n rest = elim (ltb n 10) [
  | true ↦ n ∷ rest
  | false ↦ digits_onto fuel (n / 10) (n % 10 ∷ rest)
]

-- A number has fewer digits than it counts to.
unfoldable pub digits : ℕ → List ℕ
digits n = digits_onto (suc n) n []

abbrev pub value_onto : ℕ → List ℕ → ℕ
value_onto n [] = n
value_onto n (d ∷ ds) = value_onto (n * 10 + d) ds

value_again : (n : ℕ) (rest : List ℕ) → value_onto (n / 10) (n % 10 ∷ rest) ≡ value_onto n rest
value_again n rest = ap (λ v. value_onto v rest) (omega arith)

value_onto-digits_onto :
    (fuel n : ℕ) (rest : List ℕ)
    → n < fuel
    → value_onto 0 (digits_onto fuel n rest) ≡ value_onto n rest
value_onto-digits_onto zero n rest h = omega arith
value_onto-digits_onto (suc fuel) n rest h =
    ground (arith, value_onto-digits_onto fuel (n / 10) (n % 10 ∷ rest), value_again n rest)

-- Reading the digits gives the number back.
pub value_onto-digits : (n : ℕ) → value_onto 0 (digits n) ≡ n
unfolding digits
value_onto-digits n = value_onto-digits_onto (suc n) n [] (omega arith)

digits_onto-All :
    (fuel n : ℕ) (rest : List ℕ)
    → All (λ d. d < 10) rest
    → All (λ d. d < 10) (digits_onto fuel n rest)
digits_onto-All zero n rest h = h
digits_onto-All (suc fuel) n rest h = ground (arith, digits_onto-All fuel (n / 10) (n % 10 ∷ rest))

pub digits-All : (n : ℕ) → All (λ d. d < 10) (digits n)
unfolding digits
digits-All n = digits_onto-All (suc n) n [] tt

digits_onto_some : (fuel n d : ℕ) (rest : List ℕ) → is_empty (digits_onto fuel n (d ∷ rest)) ≡ false
digits_onto_some zero n d rest = refl
digits_onto_some (suc fuel) n d rest =
    ground (arith, digits_onto_some fuel (n / 10) (n % 10) (d ∷ rest))

pub is_empty-digits : (n : ℕ) → is_empty (digits n) ≡ false
unfolding digits
is_empty-digits n = ground (arith, digits_onto_some n (n / 10) (n % 10) [])

abbrev text_of : List ℕ → String
text_of [] = ""
text_of (d ∷ ds) = text_append (slice "0123456789" d (suc d)) (text_of ds)

unfoldable pub to_string : ℕ → String
unfolding digits
to_string n = text_of (digits n)

to_string_zero : to_string 0 ≡ "0"
unfolding to_string
to_string_zero = refl

to_string_large : to_string 4294967295 ≡ "4294967295"
unfolding to_string
to_string_large = refl
