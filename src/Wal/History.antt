-- ===== src/Wal/History.antt =====
-- Histories of calls of the write-ahead log, and the journal that each history amounts to.
use microservice_common.Base.{
  String, Bool, true, List, [], ◌∷◌, ◌++◌, if◌then◌else◌, Bool-cases, inl, inr,
}
use microservice_common.Base.Int.{ℤ}
use microservice_common.Common.Types.{ClientOperation, ProcessEvent, UserRegistration}
use microservice_common.Wal.Journal.{
  Journal, put_operation, drop_operation, drop_event, drop_registration,
}
use microservice_common.Wal.Service.{PersistenceService, KeepsJournal}
use microservice_common.Wal.Logger.{
  open_operation, close_client_operation, open_process_event, close_process_event,
  open_user_registration, close_user_registration,
}

pub data Call : Type 0 where
  opens : ClientOperation → Call
  closes : String → Call
  launches : ProcessEvent → Call
  stops : ℤ → Call
  registers : UserRegistration → Call
  unregisters : String → Call

-- One call of the logger, and a history of them.
module _ (s : PersistenceService) (active : Bool) where
  unfoldable pub step : Call → s.State → s.State
  step (opens op) t = open_operation s active op t
  step (closes key) t = close_client_operation s active key t
  step (launches e) t = open_process_event s active e t
  step (stops pid) t = close_process_event s active pid t
  step (registers r) t = (open_user_registration s active r t).0
  step (unregisters id) t = close_user_registration s active id t

  unfoldable pub run : List Call → s.State → s.State
  run [] t = t
  run (c ∷ cs) t = run cs (step c t)

-- What a call does to the journal of an active log. An operation that is opened with `begin` unset
-- ends the one under its key.
unfoldable pub record_call : Call → Journal → Journal
record_call (opens op) j = record j {
  operations =
      if op.begin then put_operation op j.operations else drop_operation op.unique_key j.operations;
}
record_call (closes key) j = record j { operations = drop_operation key j.operations }
record_call (launches e) j = record j { events = j.events ++ e ∷ [] }
record_call (stops pid) j = record j { events = drop_event pid j.events }
record_call (registers r) j = record j { registrations = j.registrations ++ r ∷ [] }
record_call (unregisters id) j = record j { registrations = drop_registration id j.registrations }

unfoldable pub record_calls : List Call → Journal → Journal
record_calls [] j = j
record_calls (c ∷ cs) j = record_calls cs (record_call c j)

module _ (s : PersistenceService) {Holds : s.State → Journal → Type 0}
    (k : KeepsJournal s Holds) where
  step-Holds :
      (c : Call) (t : s.State) (j : Journal) → Holds t j → Holds (step s true c t) (record_call c j)
  unfolding step record_call open_operation close_client_operation open_process_event
      close_process_event open_user_registration close_user_registration
  step-Holds (opens op) t j h = elim (Bool-cases op.begin) [
    | inl e ↦ simp e (k.write_operation_lem op t j h)
    | inr e ↦ simp e (k.remove_operation_lem op.unique_key t j h)
  ]
  step-Holds (closes key) t j h = k.remove_operation_lem key t j h
  step-Holds (launches e) t j h = k.write_event_lem e t j h
  step-Holds (stops pid) t j h = k.remove_event_lem pid t j h
  step-Holds (registers r) t j h = k.write_registration_lem r t j h
  step-Holds (unregisters id) t j h = k.remove_registration_lem id t j h

  -- Where the service holds a journal, after any history of calls of an active log it holds that
  -- journal with the history recorded.
  pub run-Holds :
      (cs : List Call) (t : s.State) (j : Journal)
      → Holds t j
      → Holds (run s true cs t) (record_calls cs j)
  unfolding run record_calls
  run-Holds [] t j h = h
  run-Holds (c ∷ cs) t j h = run-Holds cs (step s true c t) (record_call c j) (step-Holds c t j h)
