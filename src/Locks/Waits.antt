-- ===== src/Locks/Waits.antt =====
-- How often a semaphore is waited for.
use microservice_common.Base.{
  String, ◌≡◌, refl, Bool, true, false, List, [], ◌∷◌, if◌then◌else◌, str_eq, str_eq_iff, arith,
  Bool-cases, inl, inr, any-append,
}
use microservice_common.Base.Counting.{count, count-append}
use microservice_common.Locks.{Locks, is_getted, get_lock, release_lock}

pub data LockCall : Type 0 where
  gets : Bool → String → LockCall
  releases : String → LockCall

unfoldable pub call_lock : LockCall → Locks → Locks
call_lock (gets opened name) l = (get_lock opened name l).0
call_lock (releases name) l = (release_lock name l).0

unfoldable pub run_lock_calls : List LockCall → Locks → Locks
run_lock_calls [] l = l
run_lock_calls (c ∷ cs) l = run_lock_calls cs (call_lock c l)

-- A name was waited for once if it is in the map, and not at all otherwise.
pub record IsWaited (l : Locks) : Type 0 where
  pub once : (name : String) → count (str_eq name) l.waits ≡ (if is_getted name l then 1 else 0)

get_lock-IsWaited :
    (opened : Bool) (name : String) (l : Locks) → IsWaited l → IsWaited (get_lock opened name l).0
unfolding get_lock
get_lock-IsWaited true name l h = elim (Bool-cases (is_getted name l)) [
  | inl e ↦ simp e h
  | inr e ↦ simp e (record {
    once = λ n. ground (
      arith,
      count-append (str_eq n) l.waits (name ∷ []),
      any-append (str_eq n) l.process_locks (name ∷ []),
      h.once n,
      str_eq_iff n name,
    );
  })
]
get_lock-IsWaited false name l h = elim (Bool-cases (is_getted name l)) [
  | inl e ↦ simp e h
  | inr e ↦ simp e h
]

release_lock-IsWaited : (name : String) (l : Locks) → IsWaited l → IsWaited (release_lock name l).0
unfolding release_lock
release_lock-IsWaited name l h = elim (Bool-cases (is_getted name l)) [
  | inl e ↦ simp e (record { once = h.once })
  | inr e ↦ simp e h
]

call_lock-IsWaited : (c : LockCall) (l : Locks) → IsWaited l → IsWaited (call_lock c l)
unfolding call_lock
call_lock-IsWaited (gets opened name) l h = get_lock-IsWaited opened name l h
call_lock-IsWaited (releases name) l h = release_lock-IsWaited name l h

run_lock_calls-IsWaited :
    (cs : List LockCall) (l : Locks) → IsWaited l → IsWaited (run_lock_calls cs l)
unfolding run_lock_calls
run_lock_calls-IsWaited [] l h = h
run_lock_calls-IsWaited (c ∷ cs) l h =
    run_lock_calls-IsWaited cs (call_lock c l) (call_lock-IsWaited c l h)

-- Where each name was waited for once if it is in the map and not at all otherwise, after any
-- calls of getLock and releaseLock a semaphore was waited for at most once in all, however often
-- it was released between.
pub run_lock_calls-waits :
    (cs : List LockCall) (l : Locks) (name : String)
    → IsWaited l
    → count (str_eq name) (run_lock_calls cs l).waits
      ≡ (if is_getted name (run_lock_calls cs l) then 1 else 0)
run_lock_calls-waits cs l name h = (run_lock_calls-IsWaited cs l h).once name

-- Getting a lock again after the release of a lock that was held reports success and does nothing:
-- the semaphore is not waited for.
pub get_lock-release_lock :
    (opened : Bool) (name : String) (l : Locks)
    → is_getted name l ≡ true
    → get_lock opened name (release_lock name l).0 ≡ ((release_lock name l).0, true)
unfolding get_lock release_lock
get_lock-release_lock opened name l e = simp e refl
