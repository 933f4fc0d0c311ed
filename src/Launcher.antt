-- ===== src/Launcher.antt =====
-- system/process_launcher.{h,cpp}: ProcessLauncher. The methods of the launcher and one pass of its
-- monitoring thread, as steps of one state. The operating system's part in a step is an argument: what
-- `fork` returns to the parent, and which processes `kill( pid, 0 )` finds.
pub mod Unlike
pub mod Commands
pub mod Priorities
pub mod Monitoring
pub mod Queue
pub mod Ending
use microservice_common.Base.{
  ℕ, ◌+◌, ◌==◌, ◌≡◌, String, Bool, true, false, not, ◌&&◌, List, [], ◌∷◌, ◌++◌, Option, none, some,
  map, any, filter, if◌then◌else◌, str_eq, texts_eq,
}
use microservice_common.Base.Int.{ℤ, pos, int_eq, ltb_ℤ, suc_ℤ}
use microservice_common.Common.Outcome.{Outcome, returned, undefined, ◌>>=◌}

-- ProcessHandle. `address` tells the objects apart; the pipe and what is read off it are left out.
pub record Handle : Type 0 where
  pub address : ℕ
  pub child_pid : ℤ
  pub program : String
  pub args : List String
  pub read_output : Bool
  pub exit_status : ℤ

-- IProcessObserver, by its address.
pub record Observer : Type 0 where
  pub name : ℕ
  pub priority : ℤ

-- ProcessLauncher::SLaunchTask.
pub record LaunchTask : Type 0 where
  pub task_id : ℤ
  pub launched : Bool
  pub program : String
  pub args : List String
  pub read_output : Bool
  pub check_for_duplicate : Bool
  pub handle : Option Handle

-- The data of the launcher; `g_exitedChildStatus`; and what it did outside: the signals that it sent,
-- the callbacks of observers, by observer and handle.
pub record Launcher : Type 0 where
  pub handles : List Handle
  pub tasks : List (ℤ × LaunchTask)
  pub launch_tasks : List ℤ
  pub is_shutdown : Bool
  pub observers : List Observer
  pub task_id_generator : ℤ
  pub next_address : ℕ
  pub exited_statuses : List (ℤ × ℤ)
  pub signals : List (ℤ × ℤ)
  pub callbacks : List (Observer × Handle)

abbrev pub not_defined_exit_code : ℤ
not_defined_exit_code = pos 9999999

abbrev pub sigkill : ℤ
sigkill = pos 9

-- The last value of an int32.
abbrev pub max_task_id : ℤ
max_task_id = pos 2147483647

-- ---- observers

abbrev pub is_same : Observer → Observer → Bool
is_same a b = a.name == b.name

-- The order of std::sort among observers of one priority is not promised.
unfoldable pub insert_by_priority : Observer → List Observer → List Observer
insert_by_priority o [] = o ∷ []
insert_by_priority o (p ∷ ps) =
    if ltb_ℤ p.priority o.priority then p ∷ insert_by_priority o ps else o ∷ p ∷ ps

unfoldable pub sort_by_priority : List Observer → List Observer
sort_by_priority [] = []
sort_by_priority (o ∷ os) = insert_by_priority o (sort_by_priority os)

-- The observer's field for the pid, which nothing reads, is left out.
unfoldable pub add_observer : Observer → Launcher → Launcher
add_observer o l =
    if any (is_same o) l.observers
    then l
    else record l { observers = sort_by_priority (l.observers ++ o ∷ []) }

unfoldable pub erase_first {ℓ} : {A : Type ℓ} → (A → Bool) → List A → List A
erase_first p [] = []
erase_first p (x ∷ xs) = if p x then xs else x ∷ erase_first p xs

unfoldable pub remove_observer : Observer → Launcher → Launcher
remove_observer o l = record l { observers = erase_first (is_same o) l.observers }

-- ---- launching

abbrev pub has_command : String → List String → Handle → Bool
has_command program args h = str_eq h.program program && texts_eq h.args args

-- ProcessHandle::setRole in the parent, of the object at an address.
abbrev pub set_child_pid : ℕ → ℤ → Handle → Handle
set_child_pid address pid h = if h.address == address then record h { child_pid = pid } else h

-- The handle is among the handles before `fork`, and stays there if that fails.
unfoldable pub launch : ℤ → String → List String → Bool → Bool → Launcher → Launcher × Option Handle
launch forked program args read_output check_for_duplicate l =
    if check_for_duplicate && any (has_command program args) l.handles
    then (l, none)
    else (let h : Handle = record {
      address = l.next_address;
      child_pid = pos 0;
      program = program;
      args = args;
      read_output = read_output;
      exit_status = not_defined_exit_code;
    } in
        let pushed = record l {
          handles = l.handles ++ h ∷ [];
          next_address = l.next_address + 1;
        } in
        if ltb_ℤ forked (pos 0) then (pushed, none) else (
          record pushed { handles = map (set_child_pid h.address forked) pushed.handles },
          some (record h { child_pid = forked }),
        ))

-- ---- tasks of other threads

abbrev pub find_task : ℤ → List (ℤ × LaunchTask) → Option LaunchTask
find_task id [] = none
find_task id ((j, t) ∷ ts) = if int_eq j id then some t else find_task id ts

abbrev pub put_task : ℤ → LaunchTask → List (ℤ × LaunchTask) → List (ℤ × LaunchTask)
put_task id t [] = []
put_task id t ((j, u) ∷ ts) = if int_eq j id then (j, t) ∷ ts else (j, u) ∷ put_task id t ts

-- The generator is an int32: it cannot be counted past its last value.
unfoldable pub add_launch_task :
    String → List String → Bool → Bool → Launcher → Outcome (Launcher × LaunchTask)
add_launch_task program args read_output check_for_duplicate l =
    if int_eq l.task_id_generator max_task_id
    then undefined
    else (let id = suc_ℤ l.task_id_generator in
        let task : LaunchTask = record {
          task_id = id;
          launched = false;
          program = program;
          args = args;
          read_output = read_output;
          check_for_duplicate = check_for_duplicate;
          handle = none;
        } in
        returned (
          record l {
            task_id_generator = id;
            tasks = l.tasks ++ (id, task) ∷ [];
            launch_tasks = l.launch_tasks ++ id ∷ [];
          },
          task,
        ))

abbrev is_task : Option LaunchTask → Bool
is_task none = false
is_task (some t) = true

-- The task is deleted; its place in the queue stays.
unfoldable pub remove_launch_task : ℤ → Launcher → Launcher × Bool
remove_launch_task id l =
    if is_task (find_task id l.tasks)
    then (record l { tasks = erase_first (λ t. int_eq t.0 id) l.tasks }, true)
    else (l, false)

abbrev pub last_of : ℤ → List ℤ → ℤ
last_of a [] = a
last_of a (b ∷ bs) = last_of b bs

-- A task that is deleted is no longer to be read.
unfoldable pub run_task : ℤ → ℤ → Option LaunchTask → Launcher → Outcome Launcher
run_task forked id none l = undefined
run_task forked id (some t) l =
    let (l2, handle) = launch forked t.program t.args t.read_output t.check_for_duplicate l in
    returned
      (record l2 { tasks = put_task id (record t { handle = handle; launched = true }) l2.tasks })

-- `back` of the queue is launched, and `pop` takes its front.
unfoldable pub run_queue : ℤ → List ℤ → Launcher → Outcome Launcher
run_queue forked [] l = returned l
run_queue forked (front ∷ rest) l =
    let back = last_of front rest in
    run_task forked back (find_task back l.tasks) (record l { launch_tasks = rest })

unfoldable pub run_system_clock : ℤ → Launcher → Outcome Launcher
run_system_clock forked l = run_queue forked l.launch_tasks l

-- ---- ending

abbrev pub has_pid : ℤ → Handle → Bool
has_pid pid h = int_eq h.child_pid pid

-- The signal goes to the first handle of the pid, which leaves the list. A handle that was found is
-- set to null.
unfoldable pub kill_handle : Option Handle → ℤ → Launcher → Launcher × Option Handle
kill_handle none signal l = (l, none)
kill_handle (some h) signal l =
    if any (has_pid h.child_pid) l.handles
    then (
      record l {
        handles = erase_first (has_pid h.child_pid) l.handles;
        signals = l.signals ++ (h.child_pid, signal) ∷ [];
      },
      none,
    )
    else (l, some h)

unfoldable pub kill_pid : ℤ → ℤ → Launcher → Launcher
kill_pid pid signal l = record l { signals = l.signals ++ (pid, signal) ∷ [] }

-- The caller's handle is left as it is.
unfoldable pub close_handle : Option Handle → ℤ → Launcher → Launcher
unfolding kill_handle
close_handle h signal l = (kill_handle h signal l).0

-- The destructor of a handle kills its process: nothing sets `m_died`.
unfoldable pub shutdown : Launcher → Launcher
shutdown l = if l.is_shutdown then l else record l {
  handles = [];
  signals = l.signals ++ map (λ h. (h.child_pid, sigkill)) l.handles;
  is_shutdown = true;
}

-- ---- the monitoring thread

abbrev pub status_of : ℤ → List (ℤ × ℤ) → ℤ → ℤ
status_of pid [] old = old
status_of pid ((p, s) ∷ rest) old = if int_eq p pid then s else status_of pid rest old

-- Under the lock of the statuses, if that is free when the handle's turn comes.
abbrev pub set_status : (ℕ → Bool) → List (ℤ × ℤ) → Handle → Handle
set_status free statuses h =
    if free h.address
    then record h { exit_status = status_of h.child_pid statuses h.exit_status }
    else h

unfoldable pub died_processes : (ℤ → Bool) → (ℕ → Bool) → List (ℤ × ℤ) → List Handle → List Handle
died_processes runs free statuses [] = []
died_processes runs free statuses (h ∷ hs) =
    if runs h.child_pid
    then died_processes runs free statuses hs
    else set_status free statuses h ∷ died_processes runs free statuses hs

unfoldable pub erase_died : List Handle → List Handle → List Handle
erase_died died [] = []
erase_died died (h ∷ hs) =
    if any (has_pid h.child_pid) died then erase_died died hs else h ∷ erase_died died hs

unfoldable pub notify : List Handle → List Observer → List (Observer × Handle)
notify [] os = []
notify (zombie ∷ zombies) os = map (λ o. (o, zombie)) os ++ notify zombies os

-- What follows the clock in a turn of the inner loop.
unfoldable pub clean_died : (ℤ → Bool) → (ℕ → Bool) → Launcher → Launcher
clean_died runs free l =
    let died = died_processes runs free l.exited_statuses l.handles in
    record l {
      handles = erase_died died l.handles;
      callbacks = l.callbacks ++ notify died l.observers;
    }

unfoldable pub monitor : ℤ → (ℤ → Bool) → (ℕ → Bool) → Launcher → Outcome Launcher
monitor forked runs free l = run_system_clock forked l >>= λ l2. returned (clean_died runs free l2)
