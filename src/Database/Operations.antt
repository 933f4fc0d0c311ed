-- ===== src/Database/Operations.antt =====
-- storage/database_manager_base.cpp: the client operations of the write-ahead log.
use microservice_common.Base.{String, Bool, true, List, [], ◌∷◌, map, str_eq, if◌then◌else◌}
use microservice_common.Common.Types.{ClientOperation}
use microservice_common.Common.Outcome.{Outcome, returned, ◌>>=◌, asserting}
use microservice_common.Mongo.Document.{Document, boolean, utf8}
use microservice_common.Mongo.Query.{everything, equals, is_in}
use microservice_common.Mongo.Pipeline.{singles_pipeline}
use microservice_common.Mongo.Driver.{Driver}
use microservice_common.Database.State.{Database}

abbrev pub all_client_operations : String
all_client_operations = ""

-- The `$set` document of writeClientOperation.
abbrev pub operation_fields : ClientOperation → Document
operation_fields op =
    ("begin", boolean op.begin)
    ∷ ("unique_key", utf8 op.unique_key)
    ∷ ("full_text", utf8 op.command_full_text)
    ∷ []

module _ (m : Driver) where
  unfoldable pub write_client_operation : ClientOperation → Database m → Database m × Bool
  write_client_operation op db =
      let query = equals "unique_key" (utf8 op.unique_key) in
      let (t, rt) = m.update true query (operation_fields op) db.table_wal_client_operations in
      (record db { table_wal_client_operations = t }, rt)

  abbrev pub read_operation : Document → ClientOperation
  read_operation d = record {
    unique_key = m.read_utf8 "unique_key" d;
    begin = m.read_bool "begin" d;
    command_full_text = m.read_utf8 "full_text" d;
  }

  unfoldable pub get_client_operations : Database m → List ClientOperation
  get_client_operations db = map read_operation (m.find everything db.table_wal_client_operations)

  -- The reading loop of getNonIntegrityClientOperations, with its `assert( oper.begin )`.
  unfoldable pub read_begun : List Document → Outcome (List ClientOperation)
  read_begun [] = returned []
  read_begun (d ∷ ds) =
      let rest = read_begun ds in
      let op = read_operation d in asserting op.begin (rest >>= λ ops. returned (op ∷ ops))

  unfoldable pub get_non_integrity_client_operations : Database m → Outcome (List ClientOperation)
  get_non_integrity_client_operations db =
      let t = db.table_wal_client_operations in
      let keys = map (m.read_utf8 "_id") (m.aggregate (singles_pipeline "unique_key") t) in
      read_begun (m.find (is_in "unique_key" (map utf8 keys)) t)

  unfoldable pub remove_client_operation : String → Database m → Database m
  remove_client_operation key db =
      let query =
        if str_eq all_client_operations key then everything else equals "unique_key" (utf8 key) in
      let (t, result) = m.remove query db.table_wal_client_operations in
      record db { table_wal_client_operations = t }
