-- ===== src/Base/Counting.antt =====
-- Lists as multisets: two lists have the same items if every test counts as many in each.
use Prim.Native.Nat.{ℕ, ◌+◌}
use mathlib.Core.Path.{◌≡◌, refl, sym, ◌∙◌}
use mathlib.Core.Bool.{Bool, ◌&&◌}
use mathlib.Core.List.{List, [], ◌∷◌, ◌++◌, map}
use native.Mathlib.Omega.{arith}
use microservice_common.Base.Tests.{if◌then◌else◌, ltb}
use microservice_common.Base.Lists.{filter, any}

module _ {ℓ} {A : Type ℓ} where
  abbrev pub count : (A → Bool) → List A → ℕ
  count p [] = 0
  count p (x ∷ xs) = (if p x then 1 else 0) + count p xs

  abbrev pub SameItems : List A → List A → Type ℓ
  SameItems xs ys = (p : A → Bool) → count p xs ≡ count p ys

  pub count-append : (p : A → Bool) (xs ys : List A) → count p (xs ++ ys) ≡ count p xs + count p ys
  count-append p [] ys = omega arith
  count-append p (x ∷ xs) ys = omega (arith, count-append p xs ys)

  pub count-filter :
      (p q : A → Bool) (xs : List A) → count p (filter q xs) ≡ count (λ x. q x && p x) xs
  count-filter p q [] = refl
  count-filter p q (x ∷ xs) = ground (arith, count-filter p q xs)

  pub count-congr : (p q : A → Bool) (xs : List A) → ((x : A) → p x ≡ q x) → count p xs ≡ count q xs
  count-congr p q [] h = refl
  count-congr p q (x ∷ xs) h = ground (arith, h x, count-congr p q xs h)

  pub any-count : (p : A → Bool) (xs : List A) → any p xs ≡ ltb 0 (count p xs)
  any-count p [] = ground arith
  any-count p (x ∷ xs) = ground (arith, any-count p xs)

  pub SameItems-filter :
      (q : A → Bool) (xs ys : List A) → SameItems xs ys → SameItems (filter q xs) (filter q ys)
  SameItems-filter q xs ys h p =
      count-filter p q xs ∙ h (λ x. q x && p x) ∙ sym (count-filter p q ys)

module _ {ℓ κ} {A : Type ℓ} {B : Type κ} where
  pub count-map :
      (f : A → B) (p : B → Bool) (xs : List A) → count p (map f xs) ≡ count (λ x. p (f x)) xs
  count-map f p [] = refl
  count-map f p (x ∷ xs) = ground (arith, count-map f p xs)

  pub SameItems-map :
      (f : A → B) (xs ys : List A) → SameItems xs ys → SameItems (map f xs) (map f ys)
  SameItems-map f xs ys h p = count-map f p xs ∙ h (λ x. p (f x)) ∙ sym (count-map f p ys)
