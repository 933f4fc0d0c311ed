-- ===== src/ThreadPool/Progress.antt =====
-- What becomes of the tasks of a pool.
use microservice_common.Base.{
  ℕ, zero, suc, ◌+◌, ◌≡◌, refl, ap, sym, ◌∙◌, Bool, true, false, List, [], ◌∷◌, if◌then◌else◌, any,
  is_empty, arith, Bool-cases, inl, inr,
}
use microservice_common.Base.Counting.{count, count-append}
use microservice_common.Common.Outcome.{undefined}
use microservice_common.ThreadPool.{
  Phase, waiting, taken, active, processing, processed, cleared, exited, Pool, waiting_workers,
  enqueue, request_termination, wake, advance, advance_worker, work, Reaches, starts, enqueues,
  works, terminates, is_active, all_tasks_done, cancel_workers, cancel_pending_and_process_tasks,
  number_of,
}
use microservice_common.ThreadPool.Order.{Reaches-in_order}

-- How many tasks that pass a test a worker has popped, with processInThread not yet returned.
abbrev pub held : (ℕ → Bool) → Phase → ℕ
held q (taken t) = if q t then 1 else 0
held q (active t) = if q t then 1 else 0
held q (processing t) = if q t then 1 else 0
held q _ = 0

abbrev pub all_held : (ℕ → Bool) → List Phase → ℕ
all_held q [] = 0
all_held q (w ∷ ws) = held q w + all_held q ws

-- Those of them that a worker has popped without its activity being set.
abbrev pub just_taken : (ℕ → Bool) → Phase → ℕ
just_taken q (taken t) = if q t then 1 else 0
just_taken q _ = 0

abbrev pub all_just_taken : (ℕ → Bool) → List Phase → ℕ
all_just_taken q [] = 0
all_just_taken q (w ∷ ws) = just_taken q w + all_just_taken q ws

wake-count :
    (q : ℕ → Bool) (ts : List ℕ) (p : Pool)
    → count q (wake ts p).1.popped + count q p.done
      ≡ held q (wake ts p).0 + count q (wake ts p).1.done + count q p.popped
unfolding wake
wake-count q [] p = elim (Bool-cases p.terminate) [
  | inl e ↦ simp e (omega arith)
  | inr e ↦ simp e (omega arith)
]
wake-count q (t ∷ ts) p = omega (arith, count-append q p.popped (t ∷ []))

advance-count :
    (q : ℕ → Bool) (w : Phase) (p : Pool)
    → count q (advance w p).1.popped + held q w + count q p.done
      ≡ held q (advance w p).0 + count q (advance w p).1.done + count q p.popped
unfolding advance
advance-count q waiting p = omega (arith, wake-count q p.input_tasks p)
advance-count q (taken t) p = omega arith
advance-count q (active t) p = omega arith
advance-count q (processing t) p = omega (arith, count-append q p.done (t ∷ []))
advance-count q (processed t) p = omega arith
advance-count q cleared p = omega arith
advance-count q exited p = omega arith

advance_worker-count :
    (q : ℕ → Bool) (i : ℕ) (ws : List Phase) (p : Pool)
    → count q (advance_worker i ws p).1.popped + all_held q ws + count q p.done
      ≡ all_held q (advance_worker i ws p).0
        + count q (advance_worker i ws p).1.done
        + count q p.popped
unfolding advance_worker
advance_worker-count q i [] p = omega arith
advance_worker-count q zero (w ∷ ws) p = omega (arith, advance-count q w p)
advance_worker-count q (suc i) (w ∷ ws) p = omega (arith, advance_worker-count q i ws p)

all_held-waiting_workers : (q : ℕ → Bool) (n : ℕ) → all_held q (waiting_workers n) ≡ 0
unfolding waiting_workers
all_held-waiting_workers q zero = refl
all_held-waiting_workers q (suc n) = omega (arith, all_held-waiting_workers q n)

Reaches-popped :
    (q : ℕ → Bool) (threads : ℕ) (p : Pool) (ts : List ℕ)
    → Reaches threads p ts
    → count q p.popped ≡ all_held q p.workers + count q p.done
unfolding enqueue work request_termination
Reaches-popped q threads p ts starts = omega (arith, all_held-waiting_workers q threads)
Reaches-popped q threads _ _ (enqueues {p} {ts} t r) = Reaches-popped q threads p ts r
Reaches-popped q threads _ ts (works {p} i r) =
    omega (arith, advance_worker-count q i p.workers p, Reaches-popped q threads p ts r)
Reaches-popped q threads _ ts (terminates {p} r) = Reaches-popped q threads p ts r

-- No task is lost and none is run twice: of the tasks that pass any test, as many were enqueued as
-- are done, are held by workers or wait.
pub Reaches-count :
    (q : ℕ → Bool) (threads : ℕ) (p : Pool) (ts : List ℕ)
    → Reaches threads p ts
    → count q ts ≡ count q p.done + all_held q p.workers + count q p.input_tasks
Reaches-count q threads p ts r =
    sym (ap (count q) (Reaches-in_order threads p ts r))
    ∙ omega (arith, count-append q p.popped p.input_tasks, Reaches-popped q threads p ts r)

all_held_idle :
    (q : ℕ → Bool) (ws : List Phase)
    → any is_active ws ≡ false
    → all_held q ws ≡ all_just_taken q ws
all_held_idle q [] h = refl
all_held_idle q (waiting ∷ ws) h = omega (arith, all_held_idle q ws h)
all_held_idle q (taken t ∷ ws) h = omega (arith, all_held_idle q ws h)
all_held_idle q (active t ∷ ws) h = cc
all_held_idle q (processing t ∷ ws) h = cc
all_held_idle q (processed t ∷ ws) h = cc
all_held_idle q (cleared ∷ ws) h = cc
all_held_idle q (exited ∷ ws) h = omega (arith, all_held_idle q ws h)

is_empty-count : (q : ℕ → Bool) (ts : List ℕ) → is_empty ts ≡ true → count q ts ≡ 0
is_empty-count q [] h = refl
is_empty-count q (t ∷ ts) h = cc

-- Where allTasksDone answers yes, every task is done but those that a worker has popped without
-- having set its activity.
pub all_tasks_done-count :
    (q : ℕ → Bool) (threads : ℕ) (p : Pool) (ts : List ℕ)
    → Reaches threads p ts
    → all_tasks_done p ≡ true
    → count q ts ≡ count q p.done + all_just_taken q p.workers
unfolding all_tasks_done
all_tasks_done-count q threads p ts r h = omega (
  arith,
  Reaches-count q threads p ts r,
  all_held_idle q p.workers (ground arith),
  is_empty-count q p.input_tasks (ground arith),
)

cancel_workers-undefined : (n : ℕ) (ws : List Phase) → cancel_workers (suc n) ws ≡ undefined
unfolding cancel_workers
cancel_workers-undefined n [] = refl
cancel_workers-undefined n (w ∷ ws) = rw (cancel_workers-undefined n ws) refl

-- Cancelling the tasks of a pool that has a worker reads beyond the end of the workers' tasks.
pub cancel_pending_and_process_tasks-undefined :
    (p : Pool) (w : Phase) (ws : List Phase)
    → p.workers ≡ w ∷ ws
    → cancel_pending_and_process_tasks p ≡ undefined
unfolding cancel_pending_and_process_tasks
cancel_pending_and_process_tasks-undefined p w ws e =
    rw (e, cancel_workers-undefined (number_of ws) (w ∷ ws)) refl
