-- ===== src/ThreadPool/Order.antt =====
-- The order in which the workers of a pool take its tasks.
use microservice_common.Base.{
  append_assoc, ℕ, zero, suc, ◌≡◌, refl, ap, sym, ◌∙◌, List, [], ◌∷◌, ◌++◌,
}
use microservice_common.ThreadPool.{
  Phase, waiting, taken, active, processing, processed, cleared, exited, Pool, enqueue,
  request_termination, wake, advance, advance_worker, work, Reaches, starts, enqueues, works,
  terminates,
}

-- The tasks that were popped, and then those that wait.
abbrev pub in_order : Pool → List ℕ
in_order p = p.popped ++ p.input_tasks

wake-in_order : (q : List ℕ) (p : Pool) → p.input_tasks ≡ q → in_order (wake q p).1 ≡ in_order p
unfolding wake
wake-in_order [] p e = refl
wake-in_order (t ∷ ts) p e = append_assoc p.popped (t ∷ []) ts ∙ ap (λ q. p.popped ++ q) (sym e)

advance-in_order : (w : Phase) (p : Pool) → in_order (advance w p).1 ≡ in_order p
unfolding advance
advance-in_order waiting p = wake-in_order p.input_tasks p refl
advance-in_order (taken t) p = refl
advance-in_order (active t) p = refl
advance-in_order (processing t) p = refl
advance-in_order (processed t) p = refl
advance-in_order cleared p = refl
advance-in_order exited p = refl

advance_worker-in_order :
    (i : ℕ) (ws : List Phase) (p : Pool) → in_order (advance_worker i ws p).1 ≡ in_order p
unfolding advance_worker
advance_worker-in_order i [] p = refl
advance_worker-in_order zero (w ∷ ws) p = advance-in_order w p
advance_worker-in_order (suc i) (w ∷ ws) p = advance_worker-in_order i ws p

-- However the workers and the callers take turns, the tasks are popped in the order in which they
-- were enqueued: those popped, followed by those that wait, are the tasks enqueued.
pub Reaches-in_order :
    (threads : ℕ) (p : Pool) (ts : List ℕ) → Reaches threads p ts → p.popped ++ p.input_tasks ≡ ts
unfolding enqueue work request_termination
Reaches-in_order threads p ts starts = refl
Reaches-in_order threads _ _ (enqueues {p} {ts} t r) =
    sym (append_assoc p.popped p.input_tasks (t ∷ []))
    ∙ ap (λ q. q ++ t ∷ []) (Reaches-in_order threads p ts r)
Reaches-in_order threads _ ts (works {p} i r) =
    advance_worker-in_order i p.workers p ∙ Reaches-in_order threads p ts r
Reaches-in_order threads _ ts (terminates {p} r) = Reaches-in_order threads p ts r
