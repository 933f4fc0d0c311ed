-- ===== src/Environment/Starting.antt =====
-- system/system_environment_facade.cpp: init, which ends the child processes that an interrupted run
-- left. The pid file, which is written last, is left out.
use microservice_common.Base.{
  ℕ, ◌≡◌, refl, ap, sym, ◌∙◌, Bool, true, false, not, ◌&&◌, ◌||◌, List, [], ◌∷◌, ◌++◌, map, ◌==◌,
  if◌then◌else◌, Bool-cases, inl, inr, append_assoc, append_nil,
}
use microservice_common.Base.Int.{ℤ, pos, int_eq}
use microservice_common.Base.Counting.{count}
use microservice_common.Common.Outcome.{Outcome, returned, ◌>>=◌}
use microservice_common.Mongo.Driver.{Driver, Reliable}
use microservice_common.Database.State.{Database}
use microservice_common.Launcher.{Launcher, kill_pid, sigkill}
use microservice_common.Wal.Journal.{Journal}
use microservice_common.Wal.Logger.{clean_journal, get_non_closed_processes}
use microservice_common.Wal.History.{Call, run, record_calls, run-Holds}
use microservice_common.Wal.Processes.{launched_since, events_of, get_non_closed_processes-run}
use microservice_common.Wal.Cleaning.{cleaned, clean_journal-Holds}
use microservice_common.Environment.Persistence.{environment}
use microservice_common.Environment.Journal.{HoldsJournal, environment-KeepsJournal}

-- What the calls of init answer: flock on the lock file, and whether errno is EWOULDBLOCK after it;
-- the manager's init; initDerive, which a derived class may override; and the setting for the log.
pub record Startup : Type 0 where
  pub flock : ℤ
  pub would_block : Bool
  pub database_inited : Bool
  pub derive_inited : Bool
  pub restore_system_after_interrupt : Bool

unfoldable pub is_application_instance_unique : Startup → Bool
is_application_instance_unique w = int_eq w.flock (pos 0) || not w.would_block

-- The loop over the pids, with the signal that the launcher's kill has by default.
abbrev kill_all : List ℤ → Launcher → Launcher
kill_all [] l = l
kill_all (pid ∷ pids) l = kill_all pids (kill_pid pid sigkill l)

module _ (m : Driver) (stale : ℕ → Bool) where
  -- The journal is cleaned, unless the setting asks for what it holds.
  abbrev prepare_journal : Bool → Database m → Outcome (Database m)
  prepare_journal restore db =
      if restore then returned db else clean_journal (environment m stale) restore db

  abbrev kill_zombies : Startup → Launcher → Database m → Outcome (Database m × Launcher × Bool)
  kill_zombies w l db =
      get_non_closed_processes (environment m stale) w.restore_system_after_interrupt db
      >>= λ zombies. returned (db, kill_all zombies l, w.derive_inited)

  unfoldable pub init : Startup → Database m → Launcher → Outcome (Database m × Launcher × Bool)
  init w db l =
      if not (is_application_instance_unique w)
      then returned (db, l, false)
      else (if not w.database_inited
          then returned (db, l, false)
          else (prepare_journal w.restore_system_after_interrupt db >>= kill_zombies w l))

-- Whether init goes on to the journal.
abbrev pub starts : Startup → Bool
starts w = is_application_instance_unique w && w.database_inited

abbrev pub with_killed : List ℤ → Launcher → Launcher
with_killed pids l = record l { signals = l.signals ++ map (λ pid. (pid, sigkill)) pids }

kill_all-with_killed : (pids : List ℤ) (l : Launcher) → kill_all pids l ≡ with_killed pids l
unfolding kill_pid
kill_all-with_killed [] l = ap (λ xs. record l { signals = xs }) (sym (append_nil l.signals))
kill_all-with_killed (pid ∷ pids) l =
    kill_all-with_killed pids (kill_pid pid sigkill l)
    ∙ ap (λ xs. record l { signals = xs }) (append_assoc l.signals ((pid, sigkill) ∷ []) _)

kill_zombies-inactive :
    (m : Driver) (stale : ℕ → Bool) (w : Startup) (l : Launcher) (db : Database m)
    → w.restore_system_after_interrupt ≡ false
    → kill_zombies m stale w l db ≡ returned (db, with_killed [] l, w.derive_inited)
unfolding get_non_closed_processes
kill_zombies-inactive m stale w l db r =
    simp r (ap (λ l'. returned (db, l', w.derive_inited)) (kill_all-with_killed [] l))

module _ (m : Driver) (ok : Reliable m) (stale : ℕ → Bool) where
  -- What a start leaves, after calls of a log that was active: the journal and the pids killed.
  abbrev pub Started :
      Startup → List Call → Journal → Launcher → Outcome (Database m × Launcher × Bool) → Type 0
  Started w cs j l o =
      (after : Database m) × (killed : List ℤ) × (o
        ≡ returned (after, with_killed killed l, starts w && w.derive_inited))
      × HoldsJournal m after (
          if starts w && not w.restore_system_after_interrupt
          then cleaned (record_calls cs j)
          else record_calls cs j)
      × ((pid : ℤ)
          → count (int_eq pid) killed ≡ (
              if starts w
                && w.restore_system_after_interrupt
                && (launched_since pid cs (events_of pid j.events) == 1)
              then 1
              else 0))

  -- Over a driver that acknowledges every write, and a database that holds a journal and then
  -- calls of an active log: init refuses another instance, or a database that does not open, and
  -- changes nothing. Else, where the setting asks for it, it leaves the journal as it is and sends
  -- SIGKILL once to each pid of exactly one stored launch, and to no other; where it does not, it
  -- cleans the journal and kills nothing.
  pub init-Started :
      (w : Startup) (cs : List Call) (db : Database m) (j : Journal) (l : Launcher)
      → HoldsJournal m db j
      → Started w cs j l (init m stale w (run (environment m stale) true cs db) l)
  unfolding init get_non_closed_processes
  init-Started w cs db j l h =
      let s = environment m stale in
      let k = environment-KeepsJournal m ok stale in
      let held = run-Holds s k cs db j h in
      elim (Bool-cases (is_application_instance_unique w)) [
        | inr e ↦ simp e (
          run s true cs db,
          [],
          ap (λ l'. returned (run s true cs db, l', false)) (kill_all-with_killed [] l),
          held,
          λ pid. refl,
        )
        | inl e ↦ elim (Bool-cases w.database_inited) [
          | inr d ↦
              simp (e, d)
                (
                  run s true cs db,
                  [],
                  ap (λ l'. returned (run s true cs db, l', false)) (kill_all-with_killed [] l),
                  held,
                  λ pid. refl,
                )
          | inl d ↦ elim (Bool-cases w.restore_system_after_interrupt) [
            | inl r ↦
                let (found, f, counts) = get_non_closed_processes-run s k cs db j h in
                simp (e, d, r)
                  (
                    run s true cs db,
                    found,
                    ap
                          (λ o. o >>= λ zombies.
                            returned (run s true cs db, kill_all zombies l, w.derive_inited))
                          f
                        ∙ ap (λ l'. returned (run s true cs db, l', w.derive_inited))
                            (kill_all-with_killed found l),
                    held,
                    counts,
                  )
            | inr r ↦
                let (after, c, cleaned_held) =
                  clean_journal-Holds s k false (run s true cs db) (record_calls cs j) held in
                simp (e, d, r)
                  (
                    after,
                    [],
                    ap (λ o. o >>= kill_zombies m stale w l) c
                        ∙ kill_zombies-inactive m stale w l after r,
                    cleaned_held,
                    λ pid. refl,
                  )
          ]
        ]
      ]
