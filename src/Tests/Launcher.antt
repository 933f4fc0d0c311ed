-- ===== src/Tests/Launcher.antt =====
-- system/process_launcher.cpp at concrete inputs.
use microservice_common.Base.{
  ℕ, Bool-cases, inl, inr, str_eq, str_eq_iff, ◌≡◌, refl, Bool, true, false, List, [], ◌∷◌, some,
  none, any, arith,
}
use microservice_common.Base.Int.{ℤ, pos, negsuc, int_eq}
use microservice_common.Launcher.{
  Handle, Observer, LaunchTask, Launcher, not_defined_exit_code, clean_died,
}
use microservice_common.Common.Outcome.{returned}
use microservice_common.Launcher.Unlike.{IsUnlike}
use microservice_common.Launcher.Commands.{
  Action, launches, kills, adds_task, turns, run_actions, IsReady, run_actions-IsUnlike,
}
use microservice_common.Launcher.Priorities.{
  IsOrdered, adds, removes, run_observer_calls, run_observer_calls-IsOrdered,
}
use microservice_common.Launcher.Monitoring.{is_told, clean_died-told}

abbrev player : Handle
player = record {
  address = 1;
  child_pid = pos 40;
  program = "player";
  args = "--file" ∷ [];
  read_output = false;
  exit_status = not_defined_exit_code;
}

abbrev recorder : Handle
recorder = record player { address = 2; child_pid = pos 41; program = "recorder" }

abbrev task : ℤ → LaunchTask
task id = record {
  task_id = id;
  launched = false;
  program = "converter";
  args = [];
  read_output = false;
  check_for_duplicate = true;
  handle = none;
}

abbrev watcher : Observer
watcher = record { name = 7; priority = pos 5 }

abbrev first_watcher : Observer
first_watcher = record { name = 8; priority = negsuc 0 }

abbrev launcher : Launcher
launcher = record {
  handles = player ∷ recorder ∷ [];
  tasks = (pos 1, task (pos 1)) ∷ (pos 2, task (pos 2)) ∷ [];
  launch_tasks = pos 1 ∷ pos 2 ∷ [];
  is_shutdown = false;
  observers = watcher ∷ [];
  task_id_generator = pos 2;
  next_address = 3;
  exited_statuses = [];
  signals = [];
  callbacks = [];
}

-- The process 41 has died.
abbrev runs : ℤ → Bool
runs pid = int_eq pid (pos 40)

abbrev free : ℕ → Bool
free address = true

unlike : IsUnlike launcher.handles
unlike = record {
  at_most_one = λ program args. elim (Bool-cases (str_eq "player" program)) [
    | inl e ↦ rw (← (str_eq_iff "player" program).0 e) ground arith
    | inr e ↦ ground arith
  ];
}

ordered : IsOrdered launcher.observers
ordered = record { sorted = (tt, tt); at_most_one = λ o. ground arith }

abbrev actions : List Action
actions =
    launches (pos 42) "player" ("--file" ∷ []) true
    ∷ kills (some player) (pos 9)
    ∷ adds_task "player" ("--file" ∷ []) true
    ∷ turns (pos 43) runs free
    ∷ []

-- The queue of this launcher is that of tasks that look for duplicates.
ready : IsReady 2 launcher
ready = record {
  unlike = unlike;
  checks = (refl, (refl, tt));
  known = (refl, (refl, tt));
  numbered = refl;
}

run_actions-IsUnlike_example :
    (after : Launcher) × (run_actions actions launcher ≡ returned after) × IsUnlike after.handles
run_actions-IsUnlike_example = run_actions-IsUnlike actions 2 launcher ready (omega arith)

run_observer_calls-IsOrdered_example :
    IsOrdered
      (run_observer_calls
        (adds first_watcher ∷ adds watcher ∷ removes watcher ∷ [])
        launcher).observers
run_observer_calls-IsOrdered_example =
    run_observer_calls-IsOrdered (adds first_watcher ∷ adds watcher ∷ removes watcher ∷ []) launcher
      ordered

clean_died-told_example : any (is_told watcher 2) (clean_died runs free launcher).callbacks ≡ true
clean_died-told_example = clean_died-told runs free launcher watcher 2 refl refl
