-- ===== src/Wal/Service.antt =====
-- common/ms_common_types.h, IWALPersistenceService: the storage that the write-ahead log is given, and
-- the laws that the log relies on.
use microservice_common.Base.{String, ◌≡◌, Bool, true, false, List, [], ◌∷◌, ◌++◌, filter, map}
use microservice_common.Base.Int.{ℤ, int_eq}
use microservice_common.Base.Counting.{SameItems}
use microservice_common.Common.Types.{
  ClientOperation, ProcessEvent, UserRegistration, all_keys, non_integrity_keys, all_pids,
  non_integrity_pids,
}
use microservice_common.Common.Outcome.{Reads, Outcome, returned}
use microservice_common.Wal.Journal.{
  Journal, put_operation, drop_operation, drop_event, drop_registration, is_single_key,
  is_single_pid,
}

pub record PersistenceService : Type 1 where
  pub State : Type 0
  pub write_operation : ClientOperation → State → State × Bool
  pub remove_operation : String → State → State
  pub read_operations : String → State → Outcome (List ClientOperation)
  pub write_event : ProcessEvent → State → State × Bool
  pub remove_event : ℤ → State → State
  pub read_events : ℤ → State → Outcome (List ProcessEvent)
  pub write_registration : UserRegistration → State → State × Bool
  pub remove_registration : String → State → State
  pub read_registrations : String → State → Outcome (List UserRegistration)

abbrev pub AllBegun : List ClientOperation → Type 0
AllBegun [] = Unit {0}
AllBegun (o ∷ os) = (o.begin ≡ true) × AllBegun os

-- What comes back of an event from storage: all but its flag `begin`.
abbrev pub described : ProcessEvent → ℤ × String × List String
described e = (e.pid, e.program_name, e.program_args)

abbrev pub ReadsEvents : Outcome (List ProcessEvent) → List ProcessEvent → Type 0
ReadsEvents r es =
    (ys : List ProcessEvent) × (r ≡ returned ys) × SameItems (map described ys) (map described es)

-- `Holds t j` says that the service in state `t` stores the journal `j`; its methods act on it so.
pub record KeepsJournal (s : PersistenceService) (Holds : s.State → Journal → Type 0) : Type 0 where
  pub write_operation_lem :
      (op : ClientOperation) (t : s.State) (j : Journal)
      → Holds t j
      → Holds (s.write_operation op t).0 (record j { operations = put_operation op j.operations })
  pub remove_operation_lem :
      (key : String) (t : s.State) (j : Journal)
      → Holds t j
      → Holds (s.remove_operation key t) (record j { operations = drop_operation key j.operations })
  pub read_operations-all_keys :
      (t : s.State) (j : Journal) → Holds t j → Reads (s.read_operations all_keys t) j.operations
  pub read_operations-non_integrity_keys :
      (t : s.State) (j : Journal)
      → Holds t j
      → AllBegun j.operations
      → Reads
          (s.read_operations non_integrity_keys t)
          (filter (is_single_key j.operations) j.operations)
  pub write_event_lem :
      (e : ProcessEvent) (t : s.State) (j : Journal)
      → Holds t j
      → Holds (s.write_event e t).0 (record j { events = j.events ++ e ∷ [] })
  pub remove_event_lem :
      (pid : ℤ) (t : s.State) (j : Journal)
      → Holds t j
      → Holds (s.remove_event pid t) (record j { events = drop_event pid j.events })
  pub read_events-all_pids :
      (t : s.State) (j : Journal) → Holds t j → ReadsEvents (s.read_events all_pids t) j.events
  pub read_events_lem :
      (pid : ℤ) (t : s.State) (j : Journal)
      → Holds t j
      → int_eq all_pids pid ≡ false
      → int_eq non_integrity_pids pid ≡ false
      → ReadsEvents (s.read_events pid t) (filter (λ e. int_eq pid e.pid) j.events)
  pub read_events-non_integrity_pids :
      (t : s.State) (j : Journal)
      → Holds t j
      → ReadsEvents (s.read_events non_integrity_pids t) (filter (is_single_pid j.events) j.events)
  pub write_registration_lem :
      (r : UserRegistration) (t : s.State) (j : Journal)
      → Holds t j
      → Holds (s.write_registration r t).0 (record j { registrations = j.registrations ++ r ∷ [] })
  pub remove_registration_lem :
      (id : String) (t : s.State) (j : Journal)
      → Holds t j
      → Holds
          (s.remove_registration id t)
          (record j { registrations = drop_registration id j.registrations })
  pub read_registrations_lem :
      (id : String) (t : s.State) (j : Journal)
      → Holds t j
      → Reads (s.read_registrations id t) j.registrations
