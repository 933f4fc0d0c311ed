-- ===== src/Tests/Locks.antt =====
-- The locks of system/process_launcher.cpp at concrete inputs.
use microservice_common.Base.{◌≡◌, true, List, [], ◌∷◌, if◌then◌else◌, str_eq, arith}
use microservice_common.Base.Counting.{count}
use microservice_common.Locks.{Locks, is_getted}
use microservice_common.Locks.Waits.{
  LockCall, gets, releases, run_lock_calls, IsWaited, run_lock_calls-waits,
}

abbrev one_lock : Locks
one_lock = record { process_locks = "db" ∷ []; waits = "db" ∷ []; posts = [] }

one_lock-IsWaited : IsWaited one_lock
one_lock-IsWaited = record { once = λ name. ground arith }

abbrev lock_calls : List LockCall
lock_calls = releases "db" ∷ gets true "db" ∷ gets true "net" ∷ []

run_lock_calls-waits_example :
    count (str_eq "db") (run_lock_calls lock_calls one_lock).waits
    ≡ (if is_getted "db" (run_lock_calls lock_calls one_lock) then 1 else 0)
run_lock_calls-waits_example = run_lock_calls-waits lock_calls one_lock "db" one_lock-IsWaited
