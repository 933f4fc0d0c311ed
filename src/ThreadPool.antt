-- ===== src/ThreadPool.antt =====
-- system/thread_pool.{h,cpp}: ThreadPool. A task is a number, the address of an IThreadPoolTask. A
-- worker's loop is cut where other threads can see what it did: at its lock and at each assignment.
pub mod Order
pub mod Progress
use microservice_common.Base.{
  ℕ, zero, suc, ◌==◌, Bool, true, false, not, ◌&&◌, ◌||◌, List, [], ◌∷◌, ◌++◌, Option, some, none,
  any, is_empty, if◌then◌else◌,
}
use microservice_common.Common.Outcome.{Outcome, returned, undefined, ◌>>=◌}

-- Where a worker stands in ThreadPool::Worker.
pub data Phase : Type 0 where
  waiting : Phase  -- at the lock, before a task is popped
  taken : ℕ → Phase  -- the task is popped and the lock is released
  active : ℕ → Phase  -- the worker's activity is set
  processing : ℕ → Phase  -- the task is the worker's current one
  processed : ℕ → Phase  -- processInThread has returned
  cleared : Phase  -- the worker has no current task again
  exited : Phase

-- The tasks that were popped, and those whose processInThread has returned, in their order, stand beside
-- the data of the pool.
pub record Pool : Type 0 where
  pub workers : List Phase
  pub input_tasks : List ℕ
  pub terminate : Bool
  pub popped : List ℕ
  pub done : List ℕ

unfoldable pub waiting_workers : ℕ → List Phase
waiting_workers zero = []
waiting_workers (suc n) = waiting ∷ waiting_workers n

abbrev pub new_pool : ℕ → Pool
new_pool threads = record {
  workers = waiting_workers threads;
  input_tasks = [];
  terminate = false;
  popped = [];
  done = [];
}

unfoldable pub enqueue : ℕ → Pool → Pool
enqueue t p = record p { input_tasks = p.input_tasks ++ t ∷ [] }

-- The first half of shutdown; the joins after it wait for the workers to exit.
unfoldable pub request_termination : Pool → Pool
request_termination p = record p { terminate = true }

-- The phase after the next step of a worker, with the pool's other data.
unfoldable pub wake : List ℕ → Pool → Phase × Pool
wake [] p = (if p.terminate then exited else waiting, p)
wake (t ∷ ts) p = (taken t, record p { input_tasks = ts; popped = p.popped ++ t ∷ [] })

unfoldable pub advance : Phase → Pool → Phase × Pool
unfolding wake
advance waiting p = wake p.input_tasks p
advance (taken t) p = (active t, p)
advance (active t) p = (processing t, p)
advance (processing t) p = (processed t, record p { done = p.done ++ t ∷ [] })
advance (processed t) p = (cleared, p)
advance cleared p = (waiting, p)
advance exited p = (exited, p)

unfoldable pub advance_worker : ℕ → List Phase → Pool → List Phase × Pool
advance_worker i [] p = ([], p)
advance_worker zero (w ∷ ws) p = let (w2, p2) = advance w p in (w2 ∷ ws, p2)
advance_worker (suc i) (w ∷ ws) p = let (ws2, p2) = advance_worker i ws p in (w ∷ ws2, p2)

-- A step of one worker; a worker that waits for nothing, or has exited, stays as it is.
unfoldable pub work : ℕ → Pool → Pool
work i p = let (ws, p2) = advance_worker i p.workers p in record p2 { workers = ws }

-- An entry of m_threadsActivity.
abbrev pub is_active : Phase → Bool
is_active waiting = false
is_active (taken t) = false
is_active (active t) = true
is_active (processing t) = true
is_active (processed t) = true
is_active cleared = true
is_active exited = false

unfoldable pub all_tasks_done : Pool → Bool
all_tasks_done p = not (any is_active p.workers) && is_empty p.input_tasks

-- An entry of m_workersCurrentTask.
abbrev pub current_task : Phase → Option ℕ
current_task (processing t) = some t
current_task (processed t) = some t
current_task _ = none

-- The second loop of cancelPendingAndProcessTasks: its condition is the number of workers, which the
-- loop does not change, so that it leaves the vector at its end. The result lists what is cancelled.
unfoldable pub cancel_workers : ℕ → List Phase → Outcome (List ℕ)
cancel_workers zero ws = returned []
cancel_workers (suc n) [] = undefined
cancel_workers (suc n) (w ∷ ws) = cancel_workers (suc n) ws >>= λ rest.
    returned (elim (current_task w) [ none ↦ rest | some t ↦ t ∷ rest ])

abbrev pub number_of : List Phase → ℕ
number_of [] = 0
number_of (w ∷ ws) = suc (number_of ws)

unfoldable pub cancel_pending_and_process_tasks : Pool → Outcome (Pool × List ℕ)
cancel_pending_and_process_tasks p = cancel_workers (number_of p.workers) p.workers >>= λ cancelled.
    returned (record p { input_tasks = [] }, cancelled)

-- The pools that a new one with some number of threads can become, with the tasks enqueued on the way.
pub data Reaches (threads : ℕ) : Pool → List ℕ → Type 0 where
  starts : Reaches threads (new_pool threads) []
  enqueues :
      {p : Pool} {ts : List ℕ} (t : ℕ)
      → Reaches threads p ts
      → Reaches threads (enqueue t p) (ts ++ t ∷ [])
  works : {p : Pool} {ts : List ℕ} (i : ℕ) → Reaches threads p ts → Reaches threads (work i p) ts
  terminates :
      {p : Pool} {ts : List ℕ} → Reaches threads p ts → Reaches threads (request_termination p) ts
