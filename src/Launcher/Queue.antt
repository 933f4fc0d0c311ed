-- ===== src/Launcher/Queue.antt =====
-- The queue of tasks that other threads give a launcher.
use microservice_common.Base.{
  ◌≡◌, refl, ap, ◌∙◌, String, Bool, true, false, ◌&&◌, List, [], ◌∷◌, some, any, arith, Bool-cases,
  inl, inr,
}
use microservice_common.Base.Int.{ℤ, pos, int_eq, int_eq_iff, ltb_ℤ}
use microservice_common.Common.Outcome.{returned}
use microservice_common.Launcher.{
  Launcher, LaunchTask, launch, has_command, find_task, put_task, last_of, run_task, run_queue,
  run_system_clock,
}

module _ (forked : ℤ) (program : String) (args : List String) (read_output check : Bool) where
  pub launch-tasks :
      (l : Launcher) → (launch forked program args read_output check l).0.tasks ≡ l.tasks
  unfolding launch
  launch-tasks l = elim (Bool-cases (check && any (has_command program args) l.handles)) [
    | inl e ↦ simp e refl
    | inr e ↦ elim (Bool-cases (ltb_ℤ forked (pos 0))) [
      | inl f ↦ simp (e, f) refl
      | inr f ↦ simp (e, f) refl
    ]
  ]

  pub launch-launch_tasks :
      (l : Launcher)
      → (launch forked program args read_output check l).0.launch_tasks ≡ l.launch_tasks
  unfolding launch
  launch-launch_tasks l = elim (Bool-cases (check && any (has_command program args) l.handles)) [
    | inl e ↦ simp e refl
    | inr e ↦ elim (Bool-cases (ltb_ℤ forked (pos 0))) [
      | inl f ↦ simp (e, f) refl
      | inr f ↦ simp (e, f) refl
    ]
  ]

find_task-put_task_other :
    (id other : ℤ) (t : LaunchTask) (ts : List (ℤ × LaunchTask))
    → int_eq id other ≡ false
    → find_task other (put_task id t ts) ≡ find_task other ts
find_task-put_task_other id other t [] ne = refl
find_task-put_task_other id other t ((j, u) ∷ ts) ne = elim (Bool-cases (int_eq j id)) [
  | inl e ↦ let f = ap (λ k. int_eq k other) ((int_eq_iff j id).0 e) ∙ ne in simp (e, f) refl
  | inr e ↦ simp e (ground (arith, find_task-put_task_other id other t ts ne))
]

-- A turn of the clock over a queue of two tasks or more, the last of which is not deleted and is
-- not the first one, takes the first task out of the queue without launching it: its record stays
-- as it was.
pub run_system_clock-front :
    (forked front next : ℤ) (rest : List ℤ) (t : LaunchTask) (l : Launcher)
    → l.launch_tasks ≡ front ∷ next ∷ rest
    → find_task (last_of next rest) l.tasks ≡ some t
    → int_eq (last_of next rest) front ≡ false
    → (after : Launcher) × (run_system_clock forked l ≡ returned after)
      × (after.launch_tasks ≡ next ∷ rest)
      × (find_task front after.tasks ≡ find_task front l.tasks)
unfolding run_system_clock run_queue run_task
run_system_clock-front forked front next rest t l q found ne =
    let back = last_of next rest in
    let shorter = record l { launch_tasks = next ∷ rest } in
    let r = launch forked t.program t.args t.read_output t.check_for_duplicate shorter in
    (
      record r.0 { tasks = put_task back (record t { handle = r.1; launched = true }) r.0.tasks },
      rw (q, found) refl,
      launch-launch_tasks forked t.program t.args t.read_output t.check_for_duplicate shorter,
      find_task-put_task_other back front _ r.0.tasks ne
          ∙ ap (find_task front)
              (launch-tasks forked t.program t.args t.read_output t.check_for_duplicate shorter),
    )
