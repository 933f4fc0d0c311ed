-- ===== src/Wal/Logger.antt =====
-- system/wal.cpp: WriteAheadLogger. Its state is `active`, which `init` sets, and the state of the
-- service; a method takes that state and returns the new one. Logging is left out.
use microservice_common.Base.{String, Bool, true, false, List, [], map, is_empty, if◌then◌else◌}
use microservice_common.Base.Int.{ℤ}
use microservice_common.Common.Types.{
  ClientOperation, ProcessEvent, UserRegistration, all_keys, non_integrity_keys, all_pids,
  non_integrity_pids,
}
use microservice_common.Common.Outcome.{Outcome, returned, ◌>>=◌}
use microservice_common.Wal.Service.{PersistenceService}

module _ (s : PersistenceService) (active : Bool) where
  open s use {State}

  unfoldable pub open_operation : ClientOperation → State → State
  open_operation op t =
      if active
      then (if op.begin then (s.write_operation op t).0 else s.remove_operation op.unique_key t)
      else t

  unfoldable pub close_client_operation : String → State → State
  close_client_operation key t = s.remove_operation key t

  -- Each request carries the full text of its operation.
  unfoldable pub get_interrupted_operations : State → Outcome (List String)
  get_interrupted_operations t =
      if active
      then (s.read_operations non_integrity_keys t >>= λ ops.
          returned (map (λ op. op.command_full_text) ops))
      else returned []

  unfoldable pub open_process_event : ProcessEvent → State → State
  open_process_event event t = if active then (s.write_event event t).0 else t

  unfoldable pub close_process_event : ℤ → State → State
  close_process_event pid t = s.remove_event pid t

  unfoldable pub get_non_closed_processes : State → Outcome (List ℤ)
  get_non_closed_processes t =
      if active
      then (s.read_events non_integrity_pids t >>= λ events. returned (map (λ e. e.pid) events))
      else returned []

  unfoldable pub open_user_registration : UserRegistration → State → State × Bool
  open_user_registration r t = if active then ((s.write_registration r t).0, true) else (t, true)

  unfoldable pub close_user_registration : String → State → State
  close_user_registration id t = s.remove_registration id t

  unfoldable pub get_user_registrations : State → Outcome (List UserRegistration)
  get_user_registrations t = if active then s.read_registrations "" t else returned []

  unfoldable pub is_journal_empty : State → Outcome Bool
  is_journal_empty t = s.read_events all_pids t >>= λ events.
      if is_empty events
      then (s.read_operations all_keys t >>= λ ops. returned (is_empty ops))
      else returned false

  unfoldable pub clean_journal : State → Outcome State
  unfolding is_journal_empty
  clean_journal t = is_journal_empty t >>= λ none_left.
      returned (if none_left then t else s.remove_event all_pids (s.remove_operation all_keys t))
