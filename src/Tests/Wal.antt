-- ===== src/Tests/Wal.antt =====
-- system/wal.cpp over the facade and a driver in memory.
use microservice_common.Base.{
  ℕ, Bool, String, str_eq, ◌<◌, ◌≡◌, refl, true, false, List, [], ◌∷◌, arith, if◌then◌else◌, ◌==◌,
}
use microservice_common.Base.Int.{ℤ, pos, int_eq}
use microservice_common.Base.Counting.{count}
use microservice_common.Common.Types.{ClientOperation, ProcessEvent, all_keys}
use microservice_common.Common.Outcome.{returned, Reads}
use microservice_common.Mongo.Memory.{memory, memory-Reliable}
use microservice_common.Database.State.{Database}
use microservice_common.Wal.Journal.{Journal, empty_journal}
use microservice_common.Wal.Service.{PersistenceService, KeepsJournal}
use microservice_common.Wal.Logger.{
  get_interrupted_operations, get_non_closed_processes, clean_journal,
}
use microservice_common.Wal.History.{Call, opens, closes, launches, run, record_calls, run-Holds}
use microservice_common.Wal.Interrupted.{IsOpen, texts, run-IsOpen, get_interrupted_operations-run}
use microservice_common.Wal.Keys.{opened_operation_returned, closed_operation_gone}
use microservice_common.Wal.Processes.{launched_since, get_non_closed_processes-run}
use microservice_common.Wal.Cleaning.{cleaned, clean_journal-Holds}
use microservice_common.Environment.Persistence.{environment}
use microservice_common.Environment.Journal.{HoldsJournal, environment-KeepsJournal}
use microservice_common.Environment.Starting.{Startup, init, Started, init-Started}
use microservice_common.Launcher.{Launcher}

abbrev no_records : Database memory
no_records = record {
  table_wal_client_operations = [];
  table_wal_process_events = [];
  table_wal_user_registrations = [];
  table_persistence_metadata = [];
  table_persistence_description = [];
  table_persistence_from_video = [];
  table_persistence_from_dss = [];
  tables_by_persistence_id = [];
}

abbrev never_begun : ℕ → Bool
never_begun n = false

abbrev service : PersistenceService
service = environment memory never_begun

abbrev play_command : ClientOperation
play_command = record { unique_key = "play"; begin = true; command_full_text = "start player" }

abbrev stop_command : ClientOperation
stop_command = record { unique_key = "stop"; begin = true; command_full_text = "stop player" }

abbrev recorder : ProcessEvent
recorder = record { pid = pos 77; begin = true; program_name = "recorder"; program_args = [] }

abbrev history : List Call
history =
    opens play_command
    ∷ launches recorder
    ∷ opens stop_command
    ∷ closes "play"
    ∷ launches recorder
    ∷ []

holds_nothing : HoldsJournal memory no_records empty_journal
holds_nothing = record { operations = refl; events = refl; registrations = refl }

nothing-IsOpen : IsOpen []
nothing-IsOpen = record { begun = tt; distinct = λ key. omega arith }

keeps : KeepsJournal service (HoldsJournal memory)
keeps = environment-KeepsJournal memory memory-Reliable never_begun

environment-KeepsJournal_example : KeepsJournal service (HoldsJournal memory)
environment-KeepsJournal_example = environment-KeepsJournal memory memory-Reliable never_begun

run-Holds_example :
    HoldsJournal memory (run service true history no_records) (record_calls history empty_journal)
run-Holds_example = run-Holds service keeps history no_records empty_journal holds_nothing

run-IsOpen_example :
    (after : Journal) × HoldsJournal memory (run service true history no_records) after
    × IsOpen after.operations
run-IsOpen_example =
    run-IsOpen service keeps history no_records empty_journal holds_nothing nothing-IsOpen

get_interrupted_operations-run_example :
    Reads
      (get_interrupted_operations service true (run service true history no_records))
      (texts (record_calls history empty_journal).operations)
get_interrupted_operations-run_example =
    get_interrupted_operations-run service keeps history no_records empty_journal holds_nothing
      nothing-IsOpen

opened_operation_returned_example :
    (found : List String) × (get_interrupted_operations service true
        (run service true (closes "play" ∷ opens stop_command ∷ closes "play" ∷ []) no_records)
      ≡ returned found)
    × (0 < count (str_eq "stop player") found)
opened_operation_returned_example =
    opened_operation_returned service keeps (closes "play" ∷ []) (closes "play" ∷ []) stop_command
      no_records empty_journal holds_nothing nothing-IsOpen refl (refl, tt)

closed_operation_gone_example :
    (ops : List ClientOperation) × (service.read_operations all_keys
        (run service true (opens play_command ∷ closes "play" ∷ launches recorder ∷ []) no_records)
      ≡ returned ops)
    × (count (λ o. str_eq "play" o.unique_key) ops ≡ 0)
closed_operation_gone_example =
    closed_operation_gone service keeps (opens play_command ∷ []) (launches recorder ∷ []) "play"
      no_records empty_journal holds_nothing (refl, tt)

get_non_closed_processes-run_example :
    (found : List ℤ) × (get_non_closed_processes service true (run service true history no_records)
      ≡ returned found)
    × ((pid : ℤ) → count (int_eq pid) found ≡ (if launched_since pid history 0 == 1 then 1 else 0))
get_non_closed_processes-run_example =
    get_non_closed_processes-run service keeps history no_records empty_journal holds_nothing

clean_journal-Holds_example :
    (after : Database memory) × (clean_journal service true no_records ≡ returned after)
    × HoldsJournal memory after (cleaned empty_journal)
clean_journal-Holds_example =
    clean_journal-Holds service keeps true no_records empty_journal holds_nothing

-- The first instance, which asks for what the log holds.
abbrev startup : Startup
startup = record {
  flock = pos 0;
  would_block = false;
  database_inited = true;
  derive_inited = true;
  restore_system_after_interrupt = true;
}

abbrev launcher : Launcher
launcher = record {
  handles = [];
  tasks = [];
  launch_tasks = [];
  is_shutdown = false;
  observers = [];
  task_id_generator = pos 0;
  next_address = 1;
  exited_statuses = [];
  signals = [];
  callbacks = [];
}

init-Started_example :
    Started memory memory-Reliable never_begun startup
      (launches recorder ∷ [])
      empty_journal
      launcher
      (init memory never_begun startup
        (run service true (launches recorder ∷ []) no_records)
        launcher)
init-Started_example =
    init-Started memory memory-Reliable never_begun startup (launches recorder ∷ []) no_records
      empty_journal launcher holds_nothing
