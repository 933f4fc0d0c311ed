-- ===== src/Environment/Journal.antt =====
-- The facade over the database keeps the journal that the write-ahead log relies on.
use microservice_common.Base.{ℕ, Bool}
use microservice_common.Mongo.Driver.{Driver, Reliable}
use microservice_common.Database.State.{Database}
use microservice_common.Database.Operations.{write_client_operation, remove_client_operation}
use microservice_common.Database.Events.{write_process_event, remove_process_event}
use microservice_common.Database.Registrations.{write_user_registration, remove_user_registration}
use microservice_common.Wal.Journal.{Journal}
use microservice_common.Wal.Service.{KeepsJournal}
use microservice_common.Environment.Persistence.{environment}
use microservice_common.Environment.Operations.{
  HoldsOperations, read_operations-AllKeys, read_operations-NonIntegrityKeys,
  write_client_operation-HoldsOperations, remove_client_operation-HoldsOperations,
}
use microservice_common.Environment.Events.{
  HoldsEvents, read_events-AllPids, read_events-Pid, read_events-NonIntegrityPids,
  write_process_event-HoldsEvents, remove_process_event-HoldsEvents,
}
use microservice_common.Environment.Registrations.{
  HoldsRegistrations, get_user_registrations-Reads, write_user_registration-HoldsRegistrations,
  remove_user_registration-HoldsRegistrations,
}

-- The three collections of the log hold the journal's entries, encoded, and nothing else.
pub record HoldsJournal (m : Driver) (db : Database m) (j : Journal) : Type 0 where
  pub operations : HoldsOperations m db j.operations
  pub events : HoldsEvents m db j.events
  pub registrations : HoldsRegistrations m db j.registrations

-- Over a driver that acknowledges every write, each method of the facade acts on the stored
-- journal as the interface of the log says. Each reader hands back, in some order, the journal's
-- entries that it is asked for: all; the events of one pid other than 0 and 1, which stand for all
-- and for those of single pids; or those whose pid, or whose key where all stored operations are
-- begun, stands there once. Of an event it hands back the pid, the name and the arguments, but not
-- the flag begin.
pub environment-KeepsJournal :
    (m : Driver)
    → Reliable m
    → (stale : ℕ → Bool) → KeepsJournal (environment m stale) (HoldsJournal m)
unfolding write_client_operation remove_client_operation write_process_event remove_process_event
    write_user_registration remove_user_registration
environment-KeepsJournal m ok stale = record {
  write_operation_lem = λ op db j h. record {
    operations = write_client_operation-HoldsOperations m ok op db _ h.operations;
    events = h.events;
    registrations = h.registrations;
  };
  remove_operation_lem = λ key db j h. record {
    operations = remove_client_operation-HoldsOperations m ok key db _ h.operations;
    events = h.events;
    registrations = h.registrations;
  };
  read_operations-all_keys = λ db j h. read_operations-AllKeys m db _ h.operations;
  read_operations-non_integrity_keys =
      λ db j h begun. read_operations-NonIntegrityKeys m db _ h.operations begun;
  write_event_lem = λ e db j h. record {
    operations = h.operations;
    events = write_process_event-HoldsEvents m ok e db _ h.events;
    registrations = h.registrations;
  };
  remove_event_lem = λ pid db j h. record {
    operations = h.operations;
    events = remove_process_event-HoldsEvents m ok pid db _ h.events;
    registrations = h.registrations;
  };
  read_events-all_pids = λ db j h. read_events-AllPids m stale db _ h.events;
  read_events_lem = λ pid db j h all_ single. read_events-Pid m stale pid db _ h.events all_ single;
  read_events-non_integrity_pids = λ db j h. read_events-NonIntegrityPids m stale db _ h.events;
  write_registration_lem = λ r db j h. record {
    operations = h.operations;
    events = h.events;
    registrations = write_user_registration-HoldsRegistrations m ok r db _ h.registrations;
  };
  remove_registration_lem = λ id db j h. record {
    operations = h.operations;
    events = h.events;
    registrations = remove_user_registration-HoldsRegistrations m ok id db _ h.registrations;
  };
  read_registrations_lem = λ id db j h. get_user_registrations-Reads m db _ h.registrations;
}
