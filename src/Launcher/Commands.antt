-- ===== src/Launcher/Commands.antt =====
-- The commands of the processes that a launcher holds, where launches look for duplicates.
use microservice_common.Base.{
  ℕ, suc, ◌+◌, ◌<◌, ◌&&◌, All, any-append, ap, length, subst, ◌≤◌, ◌≡◌, refl, sym, ◌∙◌, String,
  Bool, true, false, List, [], ◌∷◌, ◌++◌, Option, some, none, any, arith, Bool-cases, inl, inr,
}
use microservice_common.Base.Int.{ℤ, pos, ltb_ℤ, int_eq, suc_ℤ, int_eq_refl}
use microservice_common.Common.Outcome.{Outcome, returned, ◌>>=◌}
use microservice_common.Launcher.Unlike.{
  IsUnlike, count-erase_first, fewer-IsUnlike, launch-IsUnlike, clean_died-IsUnlike,
}
use microservice_common.Launcher.Queue.{launch-tasks, launch-launch_tasks}
use microservice_common.Launcher.{
  Handle, Launcher, launch, has_command, kill_handle, close_handle, shutdown, clean_died, has_pid,
  LaunchTask, add_launch_task, monitor, find_task, put_task, last_of, run_system_clock, run_queue,
  run_task, max_task_id,
}

-- What is done to a launcher: every launch and every task that is added looks for duplicates, and no
-- task is removed. A turn is that of the monitoring thread.
pub data Action : Type 0 where
  launches : ℤ → String → List String → Bool → Action
  kills : Option Handle → ℤ → Action
  closes : Option Handle → ℤ → Action
  adds_task : String → List String → Bool → Action
  turns : ℤ → (ℤ → Bool) → (ℕ → Bool) → Action
  shuts_down : Action

unfoldable pub act : Action → Launcher → Outcome Launcher
act (launches forked program args read_output) l =
    returned (launch forked program args read_output true l).0
act (kills h signal) l = returned (kill_handle h signal l).0
act (closes h signal) l = returned (close_handle h signal l)
act (adds_task program args read_output) l =
    add_launch_task program args read_output true l >>= λ r. returned r.0
act (turns forked runs free) l = monitor forked runs free l
act shuts_down l = returned (shutdown l)

unfoldable pub run_actions : List Action → Launcher → Outcome Launcher
run_actions [] l = returned l
run_actions (a ∷ as_) l = act a l >>= run_actions as_

-- Whether a queued number is that of a task that was not deleted.
abbrev pub is_known : List (ℤ × LaunchTask) → ℤ → Bool
is_known ts id = any (λ t. int_eq t.0 id) ts

-- A launcher whose handles have different commands, whose tasks are there and look for duplicates,
-- and which numbered `n` tasks.
pub record IsReady (n : ℕ) (l : Launcher) : Type 0 where
  pub unlike : IsUnlike l.handles
  pub checks : All (λ t. t.1.check_for_duplicate ≡ true) l.tasks
  pub known : All (λ id. is_known l.tasks id ≡ true) l.launch_tasks
  pub numbered : l.task_id_generator ≡ pos n

find_task-checks :
    (id : ℤ) (ts : List (ℤ × LaunchTask))
    → All (λ t. t.1.check_for_duplicate ≡ true) ts
    → is_known ts id ≡ true
    → (t : LaunchTask) × (find_task id ts ≡ some t) × (t.check_for_duplicate ≡ true)
find_task-checks id [] c e = cc
find_task-checks id ((j, t) ∷ ts) c e = elim (Bool-cases (int_eq j id)) [
  | inl f ↦ simp f (t, refl, c.0)
  | inr f ↦ simp f (find_task-checks id ts c.1 (ground arith))
]

put_task-checks :
    (id : ℤ) (u : LaunchTask) (ts : List (ℤ × LaunchTask))
    → u.check_for_duplicate ≡ true
    → All (λ t. t.1.check_for_duplicate ≡ true) ts
    → All (λ t. t.1.check_for_duplicate ≡ true) (put_task id u ts)
put_task-checks id u [] e c = tt
put_task-checks id u ((j, t) ∷ ts) e c = elim (Bool-cases (int_eq j id)) [
  | inl f ↦ simp f (e, c.1)
  | inr f ↦ simp f (c.0, put_task-checks id u ts e c.1)
]

is_known-put_task :
    (id k : ℤ) (u : LaunchTask) (ts : List (ℤ × LaunchTask))
    → is_known (put_task id u ts) k ≡ is_known ts k
is_known-put_task id k u [] = refl
is_known-put_task id k u ((j, t) ∷ ts) = ground (arith, is_known-put_task id k u ts)

more_known :
    (ts more : List (ℤ × LaunchTask)) (ids : List ℤ)
    → ((k : ℤ) → is_known ts k ≡ true → is_known more k ≡ true)
    → All (λ id. is_known ts id ≡ true) ids
    → All (λ id. is_known more id ≡ true) ids
more_known ts more [] e a = tt
more_known ts more (id ∷ ids) e a = (e id a.0, more_known ts more ids e a.1)

All-append {ℓ} :
    {A : Type ℓ} (P : A → Type 0) (xs : List A) (y : A) → All P xs → P y → All P (xs ++ y ∷ [])
All-append P [] y a p = (p, tt)
All-append P (x ∷ xs) y a p = (a.0, All-append P xs y a.1 p)

last_of-All :
    (P : ℤ → Type 0) (front : ℤ) (rest : List ℤ) → All P (front ∷ rest) → P (last_of front rest)
last_of-All P front [] a = a.0
last_of-All P front (next ∷ rest) a = last_of-All P next rest a.1

module _ (forked : ℤ) (program : String) (args : List String) (read_output : Bool) where
  launch-generator :
      (check : Bool) (l : Launcher)
      → (launch forked program args read_output check l).0.task_id_generator ≡ l.task_id_generator
  unfolding launch
  launch-generator check l = elim (Bool-cases (check && any (has_command program args) l.handles)) [
    | inl e ↦ simp e refl
    | inr e ↦ elim (Bool-cases (ltb_ℤ forked (pos 0))) [
      | inl f ↦ simp (e, f) refl
      | inr f ↦ simp (e, f) refl
    ]
  ]

  launch-IsReady :
      (n : ℕ) (l : Launcher)
      → IsReady n l
      → IsReady n (launch forked program args read_output true l).0
  launch-IsReady n l h = record {
    unlike = launch-IsUnlike forked program args read_output l h.unlike;
    checks = rw (launch-tasks forked program args read_output true l) h.checks;
    known =
        rw
          (
            launch-tasks forked program args read_output true l,
            launch-launch_tasks forked program args read_output true l,
          )
          h.known;
    numbered = launch-generator true l ∙ h.numbered;
  }

add_launch_task-IsReady :
    (program : String) (args : List String) (read_output : Bool) (n : ℕ) (l : Launcher)
    → IsReady n l
    → n < 2147483647
    → (after : Launcher) × (act (adds_task program args read_output) l ≡ returned after)
      × IsReady (suc n) after
unfolding act add_launch_task
add_launch_task-IsReady program args read_output n l h small =
    let room : int_eq l.task_id_generator max_task_id ≡ false =
      ap (λ k. int_eq k max_task_id) h.numbered ∙ ground arith in
    let id = suc_ℤ l.task_id_generator in
    let task : LaunchTask = record {
      task_id = id;
      launched = false;
      program = program;
      args = args;
      read_output = read_output;
      check_for_duplicate = true;
      handle = none;
    } in
    (
      record l {
        task_id_generator = id;
        tasks = l.tasks ++ (id, task) ∷ [];
        launch_tasks = l.launch_tasks ++ id ∷ [];
      },
      rw room refl,
      record {
        unlike = h.unlike;
        checks = All-append _ l.tasks (id, task) h.checks refl;
        known =
            All-append _ l.launch_tasks id
              (more_known l.tasks (l.tasks ++ (id, task) ∷ []) l.launch_tasks
                (λ k e. any-append (λ t. int_eq t.0 k) l.tasks ((id, task) ∷ []) ∙ ground arith)
                h.known)
              (any-append (λ t. int_eq t.0 id) l.tasks ((id, task) ∷ [])
                ∙ ground (arith, int_eq_refl id));
        numbered = ap suc_ℤ h.numbered;
      },
    )

-- A launched task is marked, and the queue gets shorter.
run_task-IsReady :
    (forked id : ℤ) (t : LaunchTask) (n : ℕ) (l : Launcher)
    → IsReady n l
    → t.check_for_duplicate ≡ true
    → (after : Launcher) × (run_task forked id (some t) l ≡ returned after) × IsReady n after
unfolding run_task
run_task-IsReady forked id t n l h e =
    let r = launch forked t.program t.args t.read_output t.check_for_duplicate l in
    let u = record t { handle = r.1; launched = true } in
    let ready : IsReady n r.0 =
      subst (λ b. IsReady n (launch forked t.program t.args t.read_output b l).0) (sym e)
        (launch-IsReady forked t.program t.args t.read_output n l h) in
    (
      record r.0 { tasks = put_task id u r.0.tasks },
      refl,
      record {
        unlike = ready.unlike;
        checks = put_task-checks id u r.0.tasks e ready.checks;
        known =
            more_known r.0.tasks (put_task id u r.0.tasks) r.0.launch_tasks
              (λ k f. is_known-put_task id k u r.0.tasks ∙ f) ready.known;
        numbered = ready.numbered;
      },
    )

run_queue-IsReady :
    (forked : ℤ) (queue : List ℤ) (n : ℕ) (l : Launcher)
    → l.launch_tasks ≡ queue
    → IsReady n l
    → (after : Launcher) × (run_queue forked queue l ≡ returned after) × IsReady n after
unfolding run_queue
run_queue-IsReady forked [] n l q h = (l, refl, h)
run_queue-IsReady forked (front ∷ rest) n l q h =
    let known = subst (All (λ id. is_known l.tasks id ≡ true)) q h.known in
    let back = last_of front rest in
    let (t, found, checks) =
      find_task-checks back l.tasks h.checks (last_of-All _ front rest known) in
    let (after, e, ready) =
      run_task-IsReady forked back t n (record l { launch_tasks = rest })
        (record { unlike = h.unlike; checks = h.checks; known = known.1; numbered = h.numbered })
        checks in
    (after, ap (λ o. run_task forked back o (record l { launch_tasks = rest })) found ∙ e, ready)

monitor-IsReady :
    (forked : ℤ) (runs : ℤ → Bool) (free : ℕ → Bool) (n : ℕ) (l : Launcher)
    → IsReady n l
    → (after : Launcher) × (monitor forked runs free l ≡ returned after) × IsReady n after
unfolding monitor run_system_clock clean_died
monitor-IsReady forked runs free n l h =
    let (l2, e, ready) = run_queue-IsReady forked l.launch_tasks n l refl h in
    (
      clean_died runs free l2,
      ap (λ o. o >>= λ l3. returned (clean_died runs free l3)) e,
      record {
        unlike = clean_died-IsUnlike runs free l2 ready.unlike;
        checks = ready.checks;
        known = ready.known;
        numbered = ready.numbered;
      },
    )

-- At most one task is numbered.
abbrev Acted : ℕ → Outcome Launcher → Type 0
Acted n o = (k : ℕ) × (after : Launcher) × (o ≡ returned after) × IsReady k after × (k ≤ suc n)

with_handles :
    (n : ℕ) (l after : Launcher)
    → IsReady n l
    → IsUnlike after.handles
    → after.tasks ≡ l.tasks
    → after.launch_tasks ≡ l.launch_tasks
    → after.task_id_generator ≡ l.task_id_generator
    → Acted n (returned after)
with_handles n l after h u same_tasks same_queue same = (
  n,
  after,
  refl,
  record {
    unlike = u;
    checks = rw same_tasks h.checks;
    known = rw (same_tasks, same_queue) h.known;
    numbered = same ∙ h.numbered;
  },
  omega arith,
)

kill_handle-Acted :
    (x : Option Handle) (signal : ℤ) (n : ℕ) (l : Launcher)
    → IsReady n l
    → Acted n (returned (kill_handle x signal l).0)
unfolding kill_handle
kill_handle-Acted none signal n l h = (n, l, refl, h, omega arith)
kill_handle-Acted (some x) signal n l h = elim (Bool-cases (any (has_pid x.child_pid) l.handles)) [
  | inl e ↦ simp e (
      with_handles n l _ h
        (fewer-IsUnlike l.handles _ (λ p. count-erase_first p (has_pid x.child_pid) l.handles)
          h.unlike)
        refl refl refl)
  | inr e ↦ simp e (n, l, refl, h, omega arith)
]

act-Acted : (a : Action) (n : ℕ) (l : Launcher) → IsReady n l → n < 2147483647 → Acted n (act a l)
unfolding act close_handle shutdown
act-Acted (launches forked program args read_output) n l h small =
    (n, _, refl, launch-IsReady forked program args read_output n l h, omega arith)
act-Acted (kills x signal) n l h small = kill_handle-Acted x signal n l h
act-Acted (closes x signal) n l h small = kill_handle-Acted x signal n l h
act-Acted (adds_task program args read_output) n l h small =
    let (after, e, ready) = add_launch_task-IsReady program args read_output n l h small in
    (suc n, after, e, ready, omega arith)
act-Acted (turns forked runs free) n l h small =
    let (after, e, ready) = monitor-IsReady forked runs free n l h in
    (n, after, e, ready, omega arith)
act-Acted shuts_down n l h small = elim (Bool-cases l.is_shutdown) [
  | inl e ↦ simp e (n, l, refl, h, omega arith)
  | inr e ↦
      simp e
        (with_handles n l _ h (record { at_most_one = λ program args. omega arith }) refl refl refl)
]

-- Where no two handles have one program with the same arguments, every task is there and looks for
-- duplicates, and the generator of tasks does not reach its end: launches and added tasks that
-- look for duplicates, with kills, closes, turns of the monitoring thread (its clock included) and
-- shutdowns between them, are carried out and leave no two such handles.
pub run_actions-IsUnlike :
    (as_ : List Action) (n : ℕ) (l : Launcher)
    → IsReady n l
    → n + length as_ ≤ 2147483647
    → (after : Launcher) × (run_actions as_ l ≡ returned after) × IsUnlike after.handles
unfolding run_actions
run_actions-IsUnlike [] n l h small = (l, refl, h.unlike)
run_actions-IsUnlike (a ∷ as_) n l h small =
    let (k, l2, e, ready, less) = act-Acted a n l h (omega arith) in
    let (after, e2, u) = run_actions-IsUnlike as_ k l2 ready (omega arith) in
    (after, ap (λ o. o >>= run_actions as_) e ∙ e2, u)
