-- ===== src/Environment/Persistence.antt =====
-- system/system_environment_facade.cpp: the methods of IWALPersistenceService.
use microservice_common.Base.{ℕ, String, Bool, true, not, List, ◌&&◌, str_eq, if◌then◌else◌}
use microservice_common.Base.Int.{ℤ, int_eq}
use microservice_common.Common.Types.{
  ClientOperation, ProcessEvent, all_keys, non_integrity_keys, all_pids, non_integrity_pids,
}
use microservice_common.Common.Outcome.{Outcome, returned, aborted}
use microservice_common.Mongo.Driver.{Driver}
use microservice_common.Database.State.{Database}
use microservice_common.Database.Operations.{
  write_client_operation, get_client_operations, get_non_integrity_client_operations,
  remove_client_operation,
}
use microservice_common.Database.Events.{
  all_process_events, write_process_event, get_process_events, get_non_integrity_process_events,
  remove_process_event,
}
use microservice_common.Database.Registrations.{
  write_user_registration, get_user_registrations, remove_user_registration,
}
use microservice_common.Wal.Service.{PersistenceService}

module _ (m : Driver) where
  unfoldable pub read_operations : String → Database m → Outcome (List ClientOperation)
  read_operations key db =
      if str_eq all_keys key
      then returned (get_client_operations m db)
      else (if str_eq non_integrity_keys key
          then get_non_integrity_client_operations m db
          else aborted)

  unfoldable pub read_events : (ℕ → Bool) → ℤ → Database m → Outcome (List ProcessEvent)
  read_events stale pid db =
      if not (int_eq all_pids pid) && not (int_eq non_integrity_pids pid)
      then returned (get_process_events m stale pid db)
      else (if int_eq all_pids pid
          then returned (get_process_events m stale all_process_events db)
          else (if int_eq non_integrity_pids pid
              then get_non_integrity_process_events m stale db
              else aborted))

  -- `stale n` is what the unassigned `begin` of the n-th event that is read holds.
  abbrev pub environment : (ℕ → Bool) → PersistenceService
  environment stale = record {
    State = Database m;
    write_operation = write_client_operation m;
    remove_operation = remove_client_operation m;
    read_operations = read_operations;
    write_event = λ e. write_process_event m e true;
    remove_event = remove_process_event m;
    read_events = read_events stale;
    write_registration = write_user_registration m;
    remove_registration = remove_user_registration m;
    read_registrations = λ id db. returned (get_user_registrations m db);
  }
