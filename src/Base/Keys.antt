-- ===== src/Base/Keys.antt =====
-- Keys of list elements: which keys one element only has.
use mathlib.Core.Path.{◌≡◌, refl, sym, ap, ◌∙◌}
use mathlib.Core.Logic.{◌↔◌, inl, inr}
use mathlib.Core.Bool.{Bool, true, false, ◌&&◌}
use mathlib.Core.List.{List, [], ◌∷◌, map}
use native.Mathlib.Omega.{arith}
use microservice_common.Base.Tests.{ltb, ◌==◌, if◌then◌else◌, Bool-cases, Bool-ext}
use microservice_common.Base.Lists.{filter, any, any-map}
use microservice_common.Base.Counting.{count, SameItems, count-filter, count-congr, any-count}

module _ {ℓ} {A : Type ℓ} where
  pub any-SameItems : (p : A → Bool) (xs ys : List A) → SameItems xs ys → any p xs ≡ any p ys
  any-SameItems p xs ys h = any-count p xs ∙ ap (ltb 0) (h p) ∙ sym (any-count p ys)

  pub count-and :
      (b : Bool) (p : A → Bool) (xs : List A)
      → count (λ x. b && p x) xs ≡ (if b then count p xs else 0)
  count-and true p xs = refl
  count-and false p [] = refl
  count-and false p (x ∷ xs) = omega (arith, count-and false p xs)

  pub filter-none : (xs : List A) → filter (λ x. false) xs ≡ []
  filter-none [] = refl
  filter-none (x ∷ xs) = filter-none xs

  pub filter-all : (xs : List A) → filter (λ x. true) xs ≡ xs
  filter-all [] = refl
  filter-all (x ∷ xs) = ap (◌∷◌ x) (filter-all xs)

-- Whether one element only has the key.
abbrev pub is_unique {ℓ κ} :
    {A : Type ℓ} {K : Type κ} → (A → K) → (K → K → Bool) → List A → K → Bool
is_unique key eq xs k = count (λ x. eq k (key x)) xs == 1

module _ {ℓ κ} {A : Type ℓ} {K : Type κ} (key : A → K) (eq : K → K → Bool)
    (eq_iff : (a b : K) → (eq a b ≡ true) ↔ (a ≡ b)) where
  eq_sym : (a b : K) → eq a b ≡ eq b a
  eq_sym a b =
      Bool-ext (eq a b) (eq b a) (λ h. (eq_iff b a).1 (sym ((eq_iff a b).0 h)))
        (λ h. (eq_iff a b).1 (sym ((eq_iff b a).0 h)))

  unique-match :
      (xs : List A) (k : K) (x : A)
      → (is_unique key eq xs (key x) && eq (key x) k) ≡ (is_unique key eq xs k && eq k (key x))
  unique-match xs k x = elim (Bool-cases (eq k (key x))) [
    | inl e ↦ rw (← (eq_iff k (key x)).0 e) refl
    | inr e ↦ ground (arith, eq_sym (key x) k)
  ]

  -- A key is among those of the unique elements exactly if it is unique.
  pub any_unique :
      (xs : List A) (k : K)
      → any (λ j. eq j k) (map key (filter (λ x. is_unique key eq xs (key x)) xs))
        ≡ is_unique key eq xs k
  any_unique xs k =
      any-map key (λ j. eq j k) _
      ∙ any-count (λ x. eq (key x) k) _
      ∙ ap (ltb 0) (
          count-filter (λ x. eq (key x) k) (λ x. is_unique key eq xs (key x)) xs
          ∙ count-congr _ (λ x. is_unique key eq xs k && eq k (key x)) xs (unique-match xs k))
      ∙ ground (arith, count-and (is_unique key eq xs k) (λ x. eq k (key x)) xs)
