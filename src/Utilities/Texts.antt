-- ===== src/Utilities/Texts.antt =====
-- Cutting a text and filtering its characters.
use microservice_common.Base.{
  ℕ, ◌≡◌, refl, ap, sym, ◌∙◌, Bool, true, false, not, List, [], ◌∷◌, ◌++◌, Option, none, some, any,
  ◌==◌, ◌||◌, if◌then◌else◌, arith, length, Bool-cases, inl, inr, ==_iff, any-append,
}
use microservice_common.Utilities.{
  cut, cut_parts, cut_by_simbol, filter_sym, filter_by_digit_and_number, is_digit, is_letter,
}

-- Whether a cut says where the symbol stood.
abbrev pub IsCut : ℕ → List ℕ → List ℕ × Option (List ℕ) → Type 0
IsCut simb s (before, none) = (before ≡ s) × (any (λ c. c == simb) s ≡ false)
IsCut simb s (before, some after) =
    (before ++ (simb ∷ after) ≡ s) × (any (λ c. c == simb) before ≡ false)

step-IsCut :
    (simb c : ℕ) (s : List ℕ) (r : List ℕ × Option (List ℕ))
    → IsCut simb s r
    → IsCut simb (c ∷ s) (if c == simb then ([], some s) else (c ∷ r.0, r.1))
step-IsCut simb c s (before, none) h = elim (Bool-cases (c == simb)) [
  | inl e ↦ simp e (λ i. sym ((==_iff c simb).0 e) i ∷ s, refl)
  | inr e ↦ simp e (ap (◌∷◌ c) h.0, h.1)
]
step-IsCut simb c s (before, some after) h = elim (Bool-cases (c == simb)) [
  | inl e ↦ simp e (λ i. sym ((==_iff c simb).0 e) i ∷ s, refl)
  | inr e ↦ simp e (ap (◌∷◌ c) h.0, h.1)
]

cut-IsCut : (simb : ℕ) (s : List ℕ) → IsCut simb s (cut simb s)
cut-IsCut simb [] = (refl, refl)
cut-IsCut simb (c ∷ s) = step-IsCut simb c s (cut simb s) (cut-IsCut simb s)

-- What cutBySimbol gives, by whether the symbol is there.
abbrev pub Parts : Bool → ℕ → List ℕ → List ℕ × List ℕ → Type 0
Parts true simb s (first, second) =
    (first ++ (simb ∷ second) ≡ s) × (any (λ c. c == simb) first ≡ false)
Parts false simb s r = r ≡ ([], s)

cut_parts-Parts :
    (simb : ℕ) (s : List ℕ) (r : List ℕ × Option (List ℕ))
    → IsCut simb s r
    → Parts (any (λ c. c == simb) s) simb s (cut_parts s r)
cut_parts-Parts simb s (before, none) h = rw h.1 refl
cut_parts-Parts simb s (before, some after) h =
    let there : any (λ c. c == simb) s ≡ true =
      ap (any (λ c. c == simb)) (sym h.0)
      ∙ any-append (λ c. c == simb) before (simb ∷ after)
      ∙ ground arith in
    rw there h

-- A text with the symbol is cut at its first occurrence, which is left out; of a text without it
-- the first part is empty and the second the whole.
pub cut_by_simbol-Parts :
    (simb : ℕ) (s : List ℕ) → Parts (any (λ c. c == simb) s) simb s (cut_by_simbol simb s)
unfolding cut_by_simbol
cut_by_simbol-Parts simb s = cut_parts-Parts simb s (cut simb s) (cut-IsCut simb s)

filter_sym_idem : (c : ℕ) → filter_sym (filter_sym c) ≡ filter_sym c
filter_sym_idem c = ground arith

-- A filtered text has the same length and only digits, letters and underscores, and filtering it
-- again changes nothing.
pub filter_by_digit_and_number_idem :
    (s : List ℕ)
    → (filter_by_digit_and_number (filter_by_digit_and_number s) ≡ filter_by_digit_and_number s)
      × (length (filter_by_digit_and_number s) ≡ length s)
      × (any (λ c. not (is_digit c || is_letter c || c == 95)) (filter_by_digit_and_number s)
          ≡ false)
unfolding filter_by_digit_and_number
filter_by_digit_and_number_idem [] = (refl, refl, refl)
filter_by_digit_and_number_idem (c ∷ s) =
    let (again, long, clean) = filter_by_digit_and_number_idem s in
    (λ i. filter_sym_idem c i ∷ again i, omega (arith, long), ground (arith, clean))
