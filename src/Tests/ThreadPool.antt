-- ===== src/Tests/ThreadPool.antt =====
-- system/thread_pool.cpp at concrete inputs.
use microservice_common.Base.{◌+◌, ◌==◌, ◌≡◌, refl, true, [], ◌∷◌, ◌++◌}
use microservice_common.Base.Counting.{count}
use microservice_common.ThreadPool.{
  waiting, Pool, new_pool, enqueue, work, Reaches, starts, enqueues, works, all_tasks_done, advance,
  advance_worker, waiting_workers, wake,
}
use microservice_common.ThreadPool.Order.{Reaches-in_order}
use microservice_common.ThreadPool.Progress.{all_held, Reaches-count}

-- A task that the only worker has just popped.
abbrev one_taken : Pool
one_taken = work 0 (enqueue 5 (new_pool 1))

one_taken-Reaches : Reaches 1 one_taken (5 ∷ [])
one_taken-Reaches = works 0 (enqueues 5 starts)

seems_done : all_tasks_done one_taken ≡ true
unfolding all_tasks_done work advance_worker advance wake enqueue waiting_workers
seems_done = refl

one_worker : (new_pool 1).workers ≡ waiting ∷ []
unfolding waiting_workers
one_worker = refl

Reaches-in_order_example : one_taken.popped ++ one_taken.input_tasks ≡ 5 ∷ []
Reaches-in_order_example = Reaches-in_order 1 one_taken (5 ∷ []) one_taken-Reaches

Reaches-count_example :
    count (λ t. t == 5) (5 ∷ [])
    ≡ count (λ t. t == 5) one_taken.done
      + all_held (λ t. t == 5) one_taken.workers
      + count (λ t. t == 5) one_taken.input_tasks
Reaches-count_example = Reaches-count (λ t. t == 5) 1 one_taken (5 ∷ []) one_taken-Reaches
