-- ===== src/Base/Lists.antt =====
-- Lists by native numbers and Boolean tests, under the library's names.
use Prim.Native.Nat.{ℕ, zero, suc, ◌+◌, ◌≤◌}
use mathlib.Core.Path.{◌≡◌, refl, ap}
use mathlib.Core.Logic.{inl, inr}
use mathlib.Core.Bool.{Bool, true, false, not, ◌&&◌, ◌||◌}
use mathlib.Core.List.{List, [], ◌∷◌, ◌++◌, map}
use mathlib.Core.Option.{Option, none, some}
use native.Mathlib.Omega.{arith}
use microservice_common.Base.Tests.{if◌then◌else◌, Bool-cases}

module _ {ℓ} {A : Type ℓ} where
  abbrev pub length : List A → ℕ
  length [] = 0
  length (x ∷ xs) = suc (length xs)

  abbrev pub get_elem? : List A → ℕ → Option A
  get_elem? [] i = none
  get_elem? (x ∷ xs) zero = some x
  get_elem? (x ∷ xs) (suc i) = get_elem? xs i

  abbrev pub filter : (A → Bool) → List A → List A
  filter p [] = []
  filter p (x ∷ xs) = if p x then x ∷ filter p xs else filter p xs

  abbrev pub any : (A → Bool) → List A → Bool
  any p [] = false
  any p (x ∷ xs) = p x || any p xs

  abbrev pub is_empty : List A → Bool
  is_empty [] = true
  is_empty (x ∷ xs) = false

  pub length-append : (xs ys : List A) → length (xs ++ ys) ≡ length xs + length ys
  length-append [] ys = omega arith
  length-append (x ∷ xs) ys = omega (arith, length-append xs ys)

  pub length-filter-le : (p : A → Bool) (xs : List A) → length (filter p xs) ≤ length xs
  length-filter-le p [] = omega arith
  length-filter-le p (x ∷ xs) = ground (arith, length-filter-le p xs)

  -- Two tests that agree keep the same elements.
  pub filter-congr :
      (p q : A → Bool) (xs : List A) → ((x : A) → p x ≡ q x) → filter p xs ≡ filter q xs
  filter-congr p q [] h = refl
  filter-congr p q (x ∷ xs) h = ground (arith, h x, filter-congr p q xs h)

  pub any-congr : (p q : A → Bool) (xs : List A) → ((x : A) → p x ≡ q x) → any p xs ≡ any q xs
  any-congr p q [] h = refl
  any-congr p q (x ∷ xs) h = ground (arith, h x, any-congr p q xs h)

module _ {ℓ κ} {A : Type ℓ} {B : Type κ} where
  pub filter-map :
      (f : A → B) (p : B → Bool) (xs : List A)
      → filter p (map f xs) ≡ map f (filter (λ x. p (f x)) xs)
  filter-map f p [] = refl
  filter-map f p (x ∷ xs) = ground (arith, filter-map f p xs)

  pub any-map : (f : A → B) (p : B → Bool) (xs : List A) → any p (map f xs) ≡ any (λ x. p (f x)) xs
  any-map f p [] = refl
  any-map f p (x ∷ xs) = ground (arith, any-map f p xs)

  -- A function that undoes another, mapped after it.
  pub map-map_inverse :
      (f : A → B) (g : B → A) (xs : List A) → ((x : A) → g (f x) ≡ x) → map g (map f xs) ≡ xs
  map-map_inverse f g [] h = refl
  map-map_inverse f g (x ∷ xs) h = ground (arith, h x, map-map_inverse f g xs h)

  pub map-congr : (f g : A → B) (xs : List A) → ((x : A) → f x ≡ g x) → map f xs ≡ map g xs
  map-congr f g [] h = refl
  map-congr f g (x ∷ xs) h = λ i. h x i ∷ map-congr f g xs h i

module _ {ℓ κ ν} {A : Type ℓ} {B : Type κ} {C : Type ν} where
  pub map-map : (g : B → C) (f : A → B) (xs : List A) → map g (map f xs) ≡ map (λ x. g (f x)) xs
  map-map g f [] = refl
  map-map g f (x ∷ xs) = ap (◌∷◌ (g (f x))) (map-map g f xs)

-- Every element has the property.
abbrev pub All {ℓ κ} : {A : Type ℓ} → (A → Type κ) → List A → Type κ
All P [] = Unit
All P (x ∷ xs) = P x × All P xs

module _ {ℓ κ ν} {A : Type ℓ} (q : A → Bool) (P : A → Type κ) (Q : Type ν) where
  -- What follows from a property at an element that passes a test follows if one passes.
  pub any-All : (xs : List A) → ((x : A) → q x ≡ true → P x → Q) → any q xs ≡ true → All P xs → Q
  any-All [] f h a = cc
  any-All (x ∷ xs) f h a = elim (Bool-cases (q x)) [
    | inl e ↦ f x e a.0
    | inr e ↦ any-All xs f (ground arith) a.1
  ]

pub any-append {ℓ} :
    {A : Type ℓ} (p : A → Bool) (xs ys : List A) → any p (xs ++ ys) ≡ (any p xs || any p ys)
any-append p [] ys = refl
any-append p (x ∷ xs) ys = ground (arith, any-append p xs ys)

pub append_assoc {ℓ} : {A : Type ℓ} (xs ys zs : List A) → (xs ++ ys) ++ zs ≡ xs ++ (ys ++ zs)
append_assoc [] ys zs = refl
append_assoc (x ∷ xs) ys zs = ap (◌∷◌ x) (append_assoc xs ys zs)

pub append_nil {ℓ} : {A : Type ℓ} (xs : List A) → xs ++ [] ≡ xs
append_nil [] = refl
append_nil (x ∷ xs) = ap (◌∷◌ x) (append_nil xs)

module _ {ℓ} {A : Type ℓ} where
  pub not-is_empty-any : (xs : List A) → not (is_empty xs) ≡ any (λ x. true) xs
  not-is_empty-any [] = refl
  not-is_empty-any (x ∷ xs) = refl

  pub any-filter : (p : A → Bool) (xs : List A) → any (λ x. true) (filter p xs) ≡ any p xs
  any-filter p [] = refl
  any-filter p (x ∷ xs) = ground (arith, any-filter p xs)

  pub filter-filter :
      (p q : A → Bool) (xs : List A) → filter p (filter q xs) ≡ filter (λ x. q x && p x) xs
  filter-filter p q [] = refl
  filter-filter p q (x ∷ xs) = ground (arith, filter-filter p q xs)

  pub any-filter_none :
      (q p : A → Bool) (xs : List A) → any q xs ≡ false → any q (filter p xs) ≡ false
  any-filter_none q p [] h = refl
  any-filter_none q p (x ∷ xs) h = ground (arith, any-filter_none q p xs)

  -- What holds of an element that passes a test, in a list where all pass it.
  module _ (good : A → Bool) where
    pub any_where :
        (bad : A → Bool) (xs : List A)
        → ((x : A) → good x ≡ true → bad x ≡ false)
        → any (λ x. not (good x)) xs ≡ false
        → any bad xs ≡ false
    any_where bad [] f h = refl
    any_where bad (x ∷ xs) f h = ground (arith, f x, any_where bad xs f)

    pub filter_where :
        (p q : A → Bool) (xs : List A)
        → ((x : A) → good x ≡ true → p x ≡ q x)
        → any (λ x. not (good x)) xs ≡ false
        → filter p xs ≡ filter q xs
    filter_where p q [] f h = refl
    filter_where p q (x ∷ xs) f h = ground (arith, f x, filter_where p q xs f)

    pub map_where {κ} :
        {B : Type κ} (f g : A → B) (xs : List A)
        → ((x : A) → good x ≡ true → f x ≡ g x)
        → any (λ x. not (good x)) xs ≡ false
        → map f xs ≡ map g xs
    map_where f g [] e h = refl
    map_where f g (x ∷ xs) e h = λ i. e x (ground arith) i ∷ map_where f g xs e (ground arith) i
