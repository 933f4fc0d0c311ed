-- ===== src/Launcher/Unlike.antt =====
-- Handles of different commands, after a launch that looks for duplicates and after some are erased.
use microservice_common.Base.{
  ℕ, ◌≤◌, ◌≡◌, refl, sym, ◌∙◌, String, Bool, true, false, List, [], ◌∷◌, ◌++◌, map, any, arith,
  Bool-cases, inl, inr, texts_eq_sound, str_eq_iff, ◌==◌,
}
use microservice_common.Base.Int.{ℤ, pos, ltb_ℤ}
use microservice_common.Base.Counting.{count, count-append, count-map, count-congr, any-count}
use microservice_common.Launcher.{
  Handle, Launcher, launch, has_command, set_child_pid, clean_died, erase_first, erase_died,
  died_processes,
}

-- No command, a program with its arguments, is that of two handles.
pub record IsUnlike (hs : List Handle) : Type 0 where
  pub at_most_one :
      (program : String) (args : List String) → count (has_command program args) hs ≤ 1

pub count-erase_first {ℓ} :
    {A : Type ℓ} (p q : A → Bool) (xs : List A) → count p (erase_first q xs) ≤ count p xs
unfolding erase_first
count-erase_first p q [] = omega arith
count-erase_first p q (x ∷ xs) = ground (arith, count-erase_first p q xs)

count-erase_died :
    (p : Handle → Bool) (died hs : List Handle) → count p (erase_died died hs) ≤ count p hs
unfolding erase_died
count-erase_died p died [] = omega arith
count-erase_died p died (h ∷ hs) = ground (arith, count-erase_died p died hs)

pub fewer-IsUnlike :
    (hs fewer : List Handle)
    → ((p : Handle → Bool) → count p fewer ≤ count p hs)
    → IsUnlike hs
    → IsUnlike fewer
fewer-IsUnlike hs fewer le u = record {
  at_most_one =
      λ program args. omega (arith, le (has_command program args), u.at_most_one program args);
}

no_command-count : (p : Handle → Bool) (hs : List Handle) → any p hs ≡ false → count p hs ≡ 0
no_command-count p hs h = ground (arith, any-count p hs)

-- A handle of another command is not counted for a command.
command_of :
    (p q : String) (as_ bs : List String) (h : Handle)
    → h.program ≡ p
    → h.args ≡ as_
    → has_command q bs h ≡ true
    → (p ≡ q) × (as_ ≡ bs)
command_of p q as_ bs h e f c = (
  sym e ∙ (str_eq_iff h.program q).0 (ground arith),
  sym f ∙ texts_eq_sound h.args bs (ground arith),
)

push-IsUnlike :
    (h : Handle) (hs : List Handle)
    → any (has_command h.program h.args) hs ≡ false
    → IsUnlike hs
    → IsUnlike (hs ++ h ∷ [])
push-IsUnlike h hs e u = record {
  at_most_one = λ program args. elim (Bool-cases (has_command program args h)) [
    | inl c ↦
        let (f, g) = command_of h.program program h.args args h refl refl c in
        let unseen : any (has_command program args) hs ≡ false =
          sym (λ i. any (has_command (f i) (g i)) hs) ∙ e in
        ground (
          arith,
          count-append (has_command program args) hs (h ∷ []),
          no_command-count (has_command program args) hs unseen,
        )
    | inr c ↦
        ground
          (arith, count-append (has_command program args) hs (h ∷ []), u.at_most_one program args)
  ];
}

set_child_pid-IsUnlike :
    (address : ℕ) (pid : ℤ) (hs : List Handle)
    → IsUnlike hs
    → IsUnlike (map (set_child_pid address pid) hs)
set_child_pid-IsUnlike address pid hs u = record {
  at_most_one = λ program args. omega (
    arith,
    count-map (set_child_pid address pid) (has_command program args) hs,
    count-congr (λ h. has_command program args (set_child_pid address pid h))
        (has_command program args) hs
        (λ h. elim (Bool-cases (h.address == address)) [
          | inl e ↦ simp e refl
          | inr e ↦ simp e refl
        ]),
    u.at_most_one program args,
  );
}

pub launch-IsUnlike :
    (forked : ℤ) (program : String) (args : List String) (read_output : Bool) (l : Launcher)
    → IsUnlike l.handles
    → IsUnlike (launch forked program args read_output true l).0.handles
unfolding launch
launch-IsUnlike forked program args read_output l u =
    elim (Bool-cases (any (has_command program args) l.handles)) [
      | inl e ↦ simp e u
      | inr e ↦ elim (Bool-cases (ltb_ℤ forked (pos 0))) [
        | inl f ↦ simp (e, f) (push-IsUnlike _ l.handles e u)
        | inr f ↦
            simp (e, f)
              (set_child_pid-IsUnlike l.next_address forked _ (push-IsUnlike _ l.handles e u))
      ]
    ]

pub clean_died-IsUnlike :
    (runs : ℤ → Bool) (free : ℕ → Bool) (l : Launcher)
    → IsUnlike l.handles
    → IsUnlike (clean_died runs free l).handles
unfolding clean_died
clean_died-IsUnlike runs free l u =
    fewer-IsUnlike l.handles _
      (λ p. count-erase_died p (died_processes runs free l.exited_statuses l.handles) l.handles) u
