-- ===== src/Wal/Processes.antt =====
-- The child processes that the log takes for not closed.
use microservice_common.Base.{
  ℕ, ◌+◌, ◌≡◌, refl, ap, sym, ◌∙◌, true, ◌||◌, ◌&&◌, List, [], ◌∷◌, map, filter, if◌then◌else◌,
  arith, Bool-cases, inl, inr, ◌==◌,
}
use microservice_common.Base.Int.{ℤ, pos, int_eq, int_eq_iff}
use microservice_common.Base.Counting.{count, count-map, count-congr, count-filter, count-append}
use microservice_common.Base.Keys.{count-and}
use microservice_common.Common.Types.{ProcessEvent}
use microservice_common.Common.Outcome.{returned, ◌>>=◌}
use microservice_common.Wal.Journal.{Journal, is_single_pid, drop_event}
use microservice_common.Wal.Service.{PersistenceService, KeepsJournal, described}
use microservice_common.Wal.Logger.{get_non_closed_processes}
use microservice_common.Wal.History.{
  Call, opens, closes, launches, stops, registers, unregisters, run, record_call, record_calls,
  run-Holds,
}

abbrev pub pids : List ProcessEvent → List ℤ
pids = map (λ e. e.pid)

-- How many of the stored events are of a process.
abbrev pub events_of : ℤ → List ProcessEvent → ℕ
events_of pid es = count (λ e. int_eq pid e.pid) es

count-single_pids :
    (pid : ℤ) (es : List ProcessEvent)
    → count (int_eq pid) (pids (filter (is_single_pid es) es))
      ≡ (if events_of pid es == 1 then 1 else 0)
count-single_pids pid es =
    count-map (λ e. e.pid) (int_eq pid) (filter (is_single_pid es) es)
    ∙ count-filter (λ e. int_eq pid e.pid) (is_single_pid es) es
    ∙ count-congr _ (λ e. (events_of pid es == 1) && int_eq pid e.pid) es
        (λ e. elim (Bool-cases (int_eq pid e.pid)) [
          | inl h ↦ rw (← (int_eq_iff pid e.pid).0 h) refl
          | inr h ↦ ground arith
        ])
    ∙ ground (arith, count-and (events_of pid es == 1) (λ e. int_eq pid e.pid) es)

-- How many launches of a process a history has recorded since it last stopped the process, or all (the
-- pid 0), when `n` were recorded before.
pub launched_since : ℤ → List Call → ℕ → ℕ
launched_since pid [] n = n
launched_since pid (launches e ∷ cs) n =
    launched_since pid cs (if int_eq pid e.pid then n + 1 else n)
launched_since pid (stops p ∷ cs) n =
    launched_since pid cs (if int_eq pid p || int_eq (pos 0) p then 0 else n)
launched_since pid (opens op ∷ cs) n = launched_since pid cs n
launched_since pid (closes key ∷ cs) n = launched_since pid cs n
launched_since pid (registers r ∷ cs) n = launched_since pid cs n
launched_since pid (unregisters id ∷ cs) n = launched_since pid cs n

events_of-drop_event :
    (pid p : ℤ) (es : List ProcessEvent)
    → events_of pid (drop_event p es)
      ≡ (if int_eq pid p || int_eq (pos 0) p then 0 else events_of pid es)
events_of-drop_event pid p [] = ground arith
events_of-drop_event pid p (e ∷ es) = ground (
  arith,
  int_eq_iff pid p,
  int_eq_iff p e.pid,
  int_eq_iff pid e.pid,
  events_of-drop_event pid p es,
)

events_of-record_calls :
    (pid : ℤ) (cs : List Call) (j : Journal)
    → events_of pid (record_calls cs j).events ≡ launched_since pid cs (events_of pid j.events)
unfolding record_calls record_call launched_since
events_of-record_calls pid [] j = refl
events_of-record_calls pid (launches e ∷ cs) j =
    events_of-record_calls pid cs (record_call (launches e) j)
    ∙ ap (launched_since pid cs)
        (count-append (λ x. int_eq pid x.pid) j.events (e ∷ []) ∙ ground arith)
events_of-record_calls pid (stops p ∷ cs) j =
    events_of-record_calls pid cs (record_call (stops p) j)
    ∙ ap (launched_since pid cs) (events_of-drop_event pid p j.events)
events_of-record_calls pid (opens op ∷ cs) j =
    events_of-record_calls pid cs (record_call (opens op) j)
events_of-record_calls pid (closes key ∷ cs) j =
    events_of-record_calls pid cs (record_call (closes key) j)
events_of-record_calls pid (registers r ∷ cs) j =
    events_of-record_calls pid cs (record_call (registers r) j)
events_of-record_calls pid (unregisters id ∷ cs) j =
    events_of-record_calls pid cs (record_call (unregisters id) j)

module _ (s : PersistenceService) {Holds : s.State → Journal → Type 0}
    (k : KeepsJournal s Holds) where
  -- Where the service holds a journal, after any history of an active log a pid is reported once
  -- if exactly one launch of it is stored, counting those stored before and those recorded since
  -- it last stopped, and not at all otherwise.
  pub get_non_closed_processes-run :
      (cs : List Call) (t : s.State) (j : Journal)
      → Holds t j
      → (found : List ℤ) × (get_non_closed_processes s true (run s true cs t) ≡ returned found)
        × ((pid : ℤ)
            → count (int_eq pid) found
              ≡ (if launched_since pid cs (events_of pid j.events) == 1 then 1 else 0))
  unfolding get_non_closed_processes
  get_non_closed_processes-run cs t j h =
      let j' = record_calls cs j in
      let (events, e, same) =
        k.read_events-non_integrity_pids (run s true cs t) j' (run-Holds s k cs t j h) in
      (
        pids events,
        ap (λ r. r >>= λ found. returned (pids found)) e,
        λ pid.
            count-map (λ e. e.pid) (int_eq pid) events
            ∙ sym (count-map described (λ d. int_eq pid d.0) events)
            ∙ same (λ d. int_eq pid d.0)
            ∙ count-map described (λ d. int_eq pid d.0) _
            ∙ sym (count-map (λ e. e.pid) (int_eq pid) _)
            ∙ count-single_pids pid j'.events
            ∙ ap (λ n. if n == 1 then 1 else 0) (events_of-record_calls pid cs j),
      )
