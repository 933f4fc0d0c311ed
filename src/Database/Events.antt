-- ===== src/Database/Events.antt =====
-- storage/database_manager_base.cpp: the process events of the write-ahead log.
use microservice_common.Base.{ℕ, suc, Bool, List, [], ◌∷◌, map, if◌then◌else◌}
use microservice_common.Base.Int.{ℤ, pos, int_eq}
use microservice_common.Common.Types.{ProcessEvent}
use microservice_common.Common.Outcome.{Outcome, returned, ◌>>=◌, asserting}
use microservice_common.Mongo.Document.{Document, int32, boolean, utf8, array}
use microservice_common.Mongo.Query.{everything, equals, is_in}
use microservice_common.Mongo.Pipeline.{singles_pipeline}
use microservice_common.Mongo.Driver.{Driver}
use microservice_common.Database.State.{Database}

abbrev pub all_process_events : ℤ
all_process_events = pos 0

-- The document of writeProcessEvent. The flag `launched` is the caller's; the event's own `begin`
-- is not written.
abbrev pub event_document : ProcessEvent → Bool → Document
event_document event launch =
    ("pid", int32 event.pid)
    ∷ ("launched", boolean launch)
    ∷ ("program_name", utf8 event.program_name)
    ∷ ("program_args", array event.program_args)
    ∷ []

module _ (m : Driver) where
  unfoldable pub write_process_event : ProcessEvent → Bool → Database m → Database m × Bool
  write_process_event event launch db =
      let (t, rt) = m.insert (event_document event launch) db.table_wal_process_events in
      (record db { table_wal_process_events = t }, rt)

  -- The C++ object's `begin` is never assigned here; the reader's caller supplies what it holds.
  abbrev pub read_event : Bool → Document → ProcessEvent
  read_event stale d = record {
    pid = m.read_int32 "pid" d;
    begin = stale;
    program_name = m.read_utf8 "program_name" d;
    program_args = m.read_array "program_args" d;
  }

  -- The loop over the cursor: each turn has an object of its own, and `stale n` is what the n-th holds.
  abbrev pub read_all_events : (ℕ → Bool) → ℕ → List Document → List ProcessEvent
  read_all_events stale n [] = []
  read_all_events stale n (d ∷ ds) = read_event (stale n) d ∷ read_all_events stale (suc n) ds

  unfoldable pub get_process_events : (ℕ → Bool) → ℤ → Database m → List ProcessEvent
  get_process_events stale pid db =
      let query = if int_eq all_process_events pid then everything else equals "pid" (int32 pid) in
      read_all_events stale 0 (m.find query db.table_wal_process_events)

  -- The reading loop of getNonIntegrityProcessEvents, with its `assert( launched )`.
  unfoldable pub read_launched : (ℕ → Bool) → ℕ → List Document → Outcome (List ProcessEvent)
  read_launched stale n [] = returned []
  read_launched stale n (d ∷ ds) =
      let rest = read_launched stale (suc n) ds in
      asserting (m.read_bool "launched" d) (rest >>= λ es. returned (read_event (stale n) d ∷ es))

  unfoldable pub get_non_integrity_process_events :
      (ℕ → Bool) → Database m → Outcome (List ProcessEvent)
  get_non_integrity_process_events stale db =
      let t = db.table_wal_process_events in
      let pids = map (m.read_int32 "_id") (m.aggregate (singles_pipeline "pid") t) in
      read_launched stale 0 (m.find (is_in "pid" (map int32 pids)) t)

  unfoldable pub remove_process_event : ℤ → Database m → Database m
  remove_process_event pid db =
      let query = if int_eq all_process_events pid then everything else equals "pid" (int32 pid) in
      let (t, result) = m.remove query db.table_wal_process_events in
      record db { table_wal_process_events = t }
