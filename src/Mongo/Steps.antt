-- ===== src/Mongo/Steps.antt =====
-- The groups of a session's rows: in ascending order, each with the greatest time of its logic step.
use microservice_common.Base.{
  ◌≡◌, refl, sym, Bool, true, false, ◌&&◌, List, [], ◌∷◌, any, All, subst, arith, Bool-cases, inl,
  inr,
}
use microservice_common.Base.Int.{ℤ, ◌<ℤ◌, int_eq, int_eq_refl, ltb_ℤ, leb_ℤ}
use microservice_common.Mongo.Pipeline.{Row, Step, add_row, steps_of, max_ℤ}

-- The step stands for the row.
abbrev pub covers : Row → Step → Bool
covers r s = int_eq r.logic_time s.logic && leb_ℤ r.astro_time s.max_astro

-- The row is of the session and gives the step both its numbers.
abbrev pub gives : ℤ → Step → Row → Bool
gives n s r = int_eq n r.session && int_eq r.logic_time s.logic && int_eq r.astro_time s.max_astro

abbrev pub Above : ℤ → List Step → Type 0
Above k = All (λ s. k <ℤ s.logic)

abbrev pub IsAscending : List Step → Type 0
IsAscending [] = Unit {0}
IsAscending (s ∷ ss) = Above s.logic ss × IsAscending ss

add_row-Above :
    (k : ℤ) (r : Row) (ss : List Step) → k <ℤ r.logic_time → Above k ss → Above k (add_row r ss)
unfolding add_row
add_row-Above k r [] h a = (h, tt)
add_row-Above k r (s ∷ ss) h a = ground (arith, add_row-Above k r ss h a.1)

Above-trans : (j k : ℤ) (ss : List Step) → j <ℤ k → Above k ss → Above j ss
Above-trans j k [] h a = tt
Above-trans j k (s ∷ ss) h a = (omega arith, Above-trans j k ss h a.1)

int_order : (a b : ℤ) → ltb_ℤ a b ≡ false → int_eq a b ≡ false → b <ℤ a
int_order a b h k = ground arith

int_less : (a b : ℤ) → ltb_ℤ a b ≡ true → a <ℤ b
int_less a b h = ground arith

add_row-IsAscending : (r : Row) (ss : List Step) → IsAscending ss → IsAscending (add_row r ss)
unfolding add_row
add_row-IsAscending r [] h = (tt, tt)
add_row-IsAscending r (s ∷ ss) h = elim (Bool-cases (ltb_ℤ r.logic_time s.logic)) [
  | inl e ↦ simp e (
    (
      int_less r.logic_time s.logic e,
      Above-trans r.logic_time s.logic ss (int_less r.logic_time s.logic e) h.0,
    ),
    h,
  )
  | inr e ↦ elim (Bool-cases (int_eq r.logic_time s.logic)) [
    | inl f ↦ simp (e, f) h
    | inr f ↦
        simp (e, f)
          (
            add_row-Above s.logic r ss (int_order r.logic_time s.logic e f) h.0,
            add_row-IsAscending r ss h.1,
          )
  ]
]

pub steps_of-IsAscending : (n : ℤ) (rows : List Row) → IsAscending (steps_of n rows)
unfolding steps_of
steps_of-IsAscending n [] = tt
steps_of-IsAscending n (r ∷ rows) = ground (
  arith,
  steps_of-IsAscending n rows,
  add_row-IsAscending r (steps_of n rows) (steps_of-IsAscending n rows),
)

covers-add_row_self : (r : Row) (ss : List Step) → any (covers r) (add_row r ss) ≡ true
unfolding add_row
covers-add_row_self r [] = ground arith
covers-add_row_self r (s ∷ ss) = ground (arith, covers-add_row_self r ss)

covers-add_row :
    (x r : Row) (ss : List Step) → any (covers x) ss ≡ true → any (covers x) (add_row r ss) ≡ true
unfolding add_row
covers-add_row x r [] h = cc
covers-add_row x r (s ∷ ss) h = ground (arith, covers-add_row x r ss)

-- Every row of the session is covered by a step.
abbrev pub Covered : ℤ → List Step → List Row → Type 0
Covered n ss = All (λ r. int_eq n r.session ≡ true → any (covers r) ss ≡ true)

Covered-add_row :
    (n : ℤ) (x : Row) (ss : List Step) (rows : List Row)
    → Covered n ss rows
    → Covered n (add_row x ss) rows
Covered-add_row n x ss [] h = tt
Covered-add_row n x ss (r ∷ rows) h =
    (λ e. covers-add_row r x ss (h.0 e), Covered-add_row n x ss rows h.1)

steps_of-within :
    (n : ℤ) (r : Row) (rows : List Row)
    → int_eq n r.session ≡ true
    → steps_of n (r ∷ rows) ≡ add_row r (steps_of n rows)
unfolding steps_of
steps_of-within n r rows e = simp e refl

steps_of-outside :
    (n : ℤ) (r : Row) (rows : List Row)
    → int_eq n r.session ≡ false
    → steps_of n (r ∷ rows) ≡ steps_of n rows
unfolding steps_of
steps_of-outside n r rows e = simp e refl

pub steps_of-Covered : (n : ℤ) (rows : List Row) → Covered n (steps_of n rows) rows
steps_of-Covered n [] = tt
steps_of-Covered n (r ∷ rows) = elim (Bool-cases (int_eq n r.session)) [
  | inl e ↦
      subst (λ ss. Covered n ss (r ∷ rows)) (sym (steps_of-within n r rows e))
        (
          λ _. covers-add_row_self r (steps_of n rows),
          Covered-add_row n r (steps_of n rows) rows (steps_of-Covered n rows),
        )
  | inr e ↦
      subst (λ ss. Covered n ss (r ∷ rows)) (sym (steps_of-outside n r rows e))
        (λ f. cc, steps_of-Covered n rows)
]

-- Every step is given by a row.
abbrev pub Given : ℤ → List Row → List Step → Type 0
Given n rows = All (λ s. any (gives n s) rows ≡ true)

Given-more :
    (n : ℤ) (r : Row) (rows : List Row) (ss : List Step) → Given n rows ss → Given n (r ∷ rows) ss
Given-more n r rows [] h = tt
Given-more n r rows (s ∷ ss) h = (ground (arith, h.0), Given-more n r rows ss h.1)

max_ℤ-gives :
    (n : ℤ) (r : Row) (rows : List Row) (s : Step)
    → int_eq n r.session ≡ true
    → int_eq r.logic_time s.logic ≡ true
    → any (gives n s) rows ≡ true
    → any (gives n (record s { max_astro = max_ℤ s.max_astro r.astro_time })) (r ∷ rows) ≡ true
max_ℤ-gives n r rows s e f h = elim (Bool-cases (ltb_ℤ s.max_astro r.astro_time)) [
  | inl g ↦ ground (arith, int_eq_refl r.astro_time)
  | inr g ↦ ground arith
]

add_row-Given :
    (n : ℤ) (r : Row) (rows : List Row) (ss : List Step)
    → int_eq n r.session ≡ true
    → Given n rows ss
    → Given n (r ∷ rows) (add_row r ss)
unfolding add_row
add_row-Given n r rows [] e h =
    (ground (arith, int_eq_refl r.logic_time, int_eq_refl r.astro_time), tt)
add_row-Given n r rows (s ∷ ss) e h = elim (Bool-cases (ltb_ℤ r.logic_time s.logic)) [
  | inl g ↦ simp g (
    ground (arith, int_eq_refl r.logic_time, int_eq_refl r.astro_time),
    Given-more n r rows (s ∷ ss) h,
  )
  | inr g ↦ elim (Bool-cases (int_eq r.logic_time s.logic)) [
    | inl f ↦
        simp (g, f) (ground (arith, max_ℤ-gives n r rows s e f h.0), Given-more n r rows ss h.1)
    | inr f ↦ simp (g, f) (ground (arith, h.0), add_row-Given n r rows ss e h.1)
  ]
]

pub steps_of-Given : (n : ℤ) (rows : List Row) → Given n rows (steps_of n rows)
unfolding steps_of
steps_of-Given n [] = tt
steps_of-Given n (r ∷ rows) = elim (Bool-cases (int_eq n r.session)) [
  | inl e ↦
      subst (Given n (r ∷ rows)) (sym (steps_of-within n r rows e))
        (add_row-Given n r rows (steps_of n rows) e (steps_of-Given n rows))
  | inr e ↦
      subst (Given n (r ∷ rows)) (sym (steps_of-outside n r rows e))
        (Given-more n r rows (steps_of n rows) (steps_of-Given n rows))
]
