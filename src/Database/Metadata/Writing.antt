-- ===== src/Database/Metadata/Writing.antt =====
-- storage/database_manager_base.cpp: storing the metadata of a persistence set, which makes the set.
use Prim.Native.String.{◌++◌}
use microservice_common.Base.{
  String, Bool, true, false, not, ◌&&◌, List, [], ◌∷◌, is_empty, ltb, if◌then◌else◌,
}
use microservice_common.Base.Decimal.{to_string}
use microservice_common.Base.Int.{ℤ, pos, int_eq, ltb_ℤ}
use microservice_common.Base.Words.{signed32, signed64}
use microservice_common.Common.Outcome.{Outcome, returned, ◌>>=◌, asserting}
use microservice_common.Common.Persistence.{
  EPersistenceSourceType, EPersistenceDataType, undefined_source, PersistenceMetadataDescr,
  PersistenceMetadataVideo, PersistenceMetadataDss, PersistenceMetadataRaw, invalid_persistence_id,
  convert_persistence_type_to_str, convert_persistence_type_from_str, convert_data_type_to_str,
}
use microservice_common.Mongo.Document.{Document, int32, int64, utf8, boolean}
use microservice_common.Mongo.Query.{equals, everything}
use microservice_common.Mongo.Driver.{Driver}
use microservice_common.Database.State.{Database, find_by_id}
use microservice_common.Database.Metadata.{
  all_context_id, get_persistence_set_metadata_by_context, get_persistence_set_metadata_by_set,
}
use microservice_common.Database.Payload.{is_found}

-- What the manager and the server give: the prefix of the collections' names, the collection that the
-- client has under a name, whether the command `createIndexes` succeeds for it, and what the memory
-- holds where a kind of data is not set.
pub record Connection (m : Driver) : Type 0 where
  pub table_name_prefix : String
  pub collection : String → m.Table
  pub index_created : String → Bool
  pub stale : EPersistenceDataType

abbrev pub is_undefined_source : EPersistenceSourceType → Bool
is_undefined_source undefined_source = true
is_undefined_source _ = false

-- The `$set` document of writePersistenceMetadataGlobal.
abbrev pub metadata_document : ℤ → String → String → PersistenceMetadataDescr → Document
metadata_document id table_name kind meta =
    ("persistence_id", int64 id)
    ∷ ("ctx_id", int32 (signed32 meta.context_id))
    ∷ ("mission_id", int32 (signed32 meta.mission_id))
    ∷ ("last_session_id", int32 meta.last_recorded_session)
    ∷ ("update_step_millisec", int64 meta.time_step_interval_millisec)
    ∷ ("source_type", utf8 (convert_persistence_type_to_str meta.source_type))
    ∷ ("data_type", utf8 kind)
    ∷ ("payload_table_name", utf8 table_name)
    ∷ []

abbrev pub is_valid_global : ℤ → PersistenceMetadataDescr → Bool
is_valid_global id meta =
    ltb 0 meta.context_id
    && ltb_ℤ (pos 0) meta.last_recorded_session
    && ltb_ℤ (pos 0) meta.time_step_interval_millisec
    && ltb_ℤ (pos 0) id
    && not (is_undefined_source meta.source_type)

-- `unordered_map::insert`: an entry that is there stays.
abbrev pub insert_by_id {ℓ} : {A : Type ℓ} → ℤ → A → List (ℤ × A) → List (ℤ × A)
insert_by_id id a xs = if is_found (find_by_id id xs) then xs else (id, a) ∷ xs

-- `payloadTableName` of the three methods. A semicolon ends the second before the part that tells
-- real data from simulated.
unfoldable pub video_table_name : String → String → PersistenceMetadataVideo → String
video_table_name prefix kind meta =
    prefix ++ "video_" ++ kind ++ "_" ++ "sensor" ++ to_string meta.recorded_from_sensor_id

unfoldable pub dss_table_name : String → String → PersistenceMetadataDss → String
dss_table_name prefix kind meta =
    prefix
    ++ "dss_"
    ++ kind
    ++ "_"
    ++ "ctx"
    ++ to_string meta.descr.context_id
    ++ "_mission"
    ++ to_string meta.descr.mission_id

unfoldable pub raw_table_name : String → String → PersistenceMetadataRaw → String
raw_table_name prefix kind meta =
    prefix
    ++ "raw_"
    ++ kind
    ++ "_"
    ++ "ctx"
    ++ to_string meta.descr.context_id
    ++ "_mission"
    ++ to_string meta.descr.mission_id

module _ (m : Driver) (c : Connection m) where
  unfoldable pub write_persistence_metadata_global :
      ℤ → String → PersistenceMetadataDescr → Database m → Outcome (Database m)
  write_persistence_metadata_global id table_name meta db = asserting (is_valid_global id meta) (
      convert_data_type_to_str meta.data_type >>= λ kind.
      let (t, rt) =
        m.update true (equals "persistence_id" (int64 id))
          (metadata_document id table_name kind meta) db.table_persistence_metadata in
      returned (record db { table_persistence_metadata = t }))

  unfoldable pub write_persistence_from_video : PersistenceMetadataVideo → Database m → Database m
  write_persistence_from_video meta db =
      let id = meta.descr.persistence_set_id in
      let (t, rt) =
        m.update true (equals "persistence_id" (int64 id))
          (("persistence_id", int64 id)
            ∷ ("sensor_id", int64 (signed64 meta.recorded_from_sensor_id))
            ∷ [])
          db.table_persistence_from_video in
      record db { table_persistence_from_video = t }

  unfoldable pub write_persistence_from_dss : PersistenceMetadataDss → Database m → Database m
  write_persistence_from_dss meta db =
      let id = meta.descr.persistence_set_id in
      let (t, rt) =
        m.update true (equals "persistence_id" (int64 id))
          (("persistence_id", int64 id) ∷ ("real", boolean meta.real_data) ∷ [])
          db.table_persistence_from_dss in
      record db { table_persistence_from_dss = t }

  unfoldable pub create_payload_table_ref : ℤ → String → Database m → Outcome (Database m)
  create_payload_table_ref id table_name db = asserting (c.index_created table_name) (
      returned (record db {
        tables_by_persistence_id =
            insert_by_id id (c.collection table_name) db.tables_by_persistence_id;
      }))

  -- The set's metadata is looked for and then not looked at.
  unfoldable pub is_persistence_metadata_valid :
      ℤ → PersistenceMetadataDescr → Database m → Outcome Bool
  is_persistence_metadata_valid id meta db =
      get_persistence_set_metadata_by_set m c.stale id db >>= λ metadata. returned true

  unfoldable pub create_new_persistence_id : Database m → Outcome ℤ
  create_new_persistence_id db =
      get_persistence_set_metadata_by_context m all_context_id db >>= λ metadatas.
      returned (if not (is_empty metadatas) then invalid_persistence_id else pos 1)

  -- The two branches of writePersistenceSetMetadata, the same in the three methods: `special` stores
  -- what is special to the source.
  abbrev pub write_existing :
      String
      → PersistenceMetadataDescr
      → (Database m → Database m)
      → Database m
      → Outcome (Database m × ℤ)
  write_existing table_name meta special db =
      let id = meta.persistence_set_id in
      is_persistence_metadata_valid id meta db >>= λ valid.
      if valid
      then (write_persistence_metadata_global id table_name meta db >>= λ db2.
          returned (special db2, id))
      else returned (db, invalid_persistence_id)

  abbrev pub write_new :
      String
      → PersistenceMetadataDescr
      → (Database m → Database m)
      → Database m
      → Outcome (Database m × ℤ)
  write_new table_name meta special db = create_new_persistence_id db >>= λ id.
      write_persistence_metadata_global id table_name meta db >>= λ db2.
      create_payload_table_ref id table_name (special db2) >>= λ db3. returned (db3, id)

  abbrev pub write_set :
      String
      → PersistenceMetadataDescr
      → (Database m → Database m)
      → Database m
      → Outcome (Database m × ℤ)
  write_set table_name meta special db =
      if not (int_eq meta.persistence_set_id invalid_persistence_id)
      then write_existing table_name meta special db
      else write_new table_name meta special db

  unfoldable pub write_persistence_set_metadata_video :
      PersistenceMetadataVideo → Database m → Outcome (Database m × ℤ)
  write_persistence_set_metadata_video meta db =
      convert_data_type_to_str meta.descr.data_type >>= λ kind.
      write_set (video_table_name c.table_name_prefix kind meta) meta.descr
        (write_persistence_from_video meta) db

  unfoldable pub write_persistence_set_metadata_dss :
      PersistenceMetadataDss → Database m → Outcome (Database m × ℤ)
  write_persistence_set_metadata_dss meta db =
      convert_data_type_to_str meta.descr.data_type >>= λ kind.
      write_set (dss_table_name c.table_name_prefix kind meta) meta.descr
        (write_persistence_from_dss meta) db

  -- writePersistenceFromRaw stores nothing.
  unfoldable pub write_persistence_set_metadata_raw :
      PersistenceMetadataRaw → Database m → Outcome (Database m × ℤ)
  write_persistence_set_metadata_raw meta db =
      convert_data_type_to_str meta.descr.data_type >>= λ kind.
      write_set (raw_table_name c.table_name_prefix kind meta) meta.descr (λ db2. db2) db

  -- The loop of initPayloadTableReferences: of what it reads, the kind of source may abort.
  abbrev pub create_refs : List Document → Database m → Outcome (Database m)
  create_refs [] db = returned db
  create_refs (d ∷ ds) db =
      convert_persistence_type_from_str (m.read_utf8 "source_type" d) >>= λ source.
      create_payload_table_ref (m.read_int64 "persistence_id" d)
        (m.read_utf8 "payload_table_name" d) db
      >>= λ db2. create_refs ds db2

  unfoldable pub init_payload_table_references : Database m → Outcome (Database m)
  init_payload_table_references db =
      create_refs (m.find everything db.table_persistence_metadata) db
