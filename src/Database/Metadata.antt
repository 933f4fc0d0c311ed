-- ===== src/Database/Metadata.antt =====
-- storage/database_manager_base.cpp: the metadata of persistence sets. The two methods named
-- getPersistenceSetMetadata are told apart by what they take, as are those named
-- deletePersistenceSetMetadata.
pub mod Writing
pub mod Scan
pub mod Contents
pub mod BySet
pub mod Created
pub mod Context
pub mod TotalData
pub mod Deleting
use microservice_common.Base.{
  ℕ, String, Bool, true, false, List, [], ◌∷◌, ◌++◌, ◌==◌, ◌-◌, ◌^◌, if◌then◌else◌,
}
use microservice_common.Base.Int.{ℤ, pos}
use microservice_common.Base.Words.{to_uint32, to_int32, signed32}
use microservice_common.Common.Outcome.{Outcome, returned, undefined, ◌>>=◌}
use microservice_common.Common.Persistence.{
  EPersistenceSourceType, EPersistenceDataType, autonomous_recorder, PersistenceMetadata,
  PersistenceMetadataRaw, new_metadata, convert_persistence_type_from_str,
  convert_data_type_from_str,
}
use microservice_common.Mongo.Document.{Document, int32}
use microservice_common.Mongo.Query.{Query, everything, equals}
use microservice_common.Mongo.Driver.{Driver}
use microservice_common.Database.State.{Database}

-- common_vars::ALL_CONTEXT_ID, the greatest uint32.
abbrev pub all_context_id : ℕ
all_context_id = 2 ^ 32 - 1

-- The new entry of `out[ currentStoreIdx ]`, where the index is that of the last element, or -1.
abbrev pub add_raw :
    PersistenceMetadataRaw → List PersistenceMetadata → Outcome (List PersistenceMetadata)
add_raw r [] = undefined
add_raw r (g ∷ []) =
    returned (record g { persistence_from_raw = g.persistence_from_raw ++ r ∷ [] } ∷ [])
add_raw r (g ∷ h ∷ gs) = add_raw r (h ∷ gs) >>= λ rest. returned (g ∷ rest)

-- The `switch` over the source: only the recorder's sets are kept.
abbrev pub store_raw :
    EPersistenceSourceType
    → PersistenceMetadataRaw
    → List PersistenceMetadata
    → Outcome (List PersistenceMetadata)
store_raw autonomous_recorder r out = add_raw r out
store_raw _ r out = returned out

abbrev pub extend_raw :
    EPersistenceSourceType → PersistenceMetadataRaw → PersistenceMetadata → PersistenceMetadata
extend_raw autonomous_recorder r out = record out {
  persistence_from_raw = out.persistence_from_raw ++ r ∷ [];
}
extend_raw _ r out = out

-- `out` grows where a context differs from the one before; the first is compared with 0.
abbrev pub grow_at : ℕ → ℕ → List PersistenceMetadata → List PersistenceMetadata
grow_at ctx current out = if ctx == current then out else out ++ new_metadata ∷ []

module _ (m : Driver) where
  abbrev pub read_raw :
      EPersistenceSourceType → EPersistenceDataType → Document → PersistenceMetadataRaw
  read_raw source kind d = record {
    descr = record {
      persistence_set_id = m.read_int64 "persistence_id" d;
      context_id = to_uint32 (m.read_int32 "ctx_id" d);
      mission_id = to_uint32 (m.read_int32 "mission_id" d);
      time_step_interval_millisec = m.read_int64 "update_step_millisec" d;
      last_recorded_session = m.read_int32 "last_session_id" d;
      source_type = source;
      data_type = kind;
    };
    a = pos 0;
  }

  abbrev pub read_contexts :
      List Document → ℕ → List PersistenceMetadata → Outcome (List PersistenceMetadata)
  read_contexts [] current out = returned out
  read_contexts (d ∷ ds) current out =
      convert_persistence_type_from_str (m.read_utf8 "source_type" d) >>= λ source.
      convert_data_type_from_str (m.read_utf8 "data_type" d) >>= λ kind.
      let ctx = to_uint32 (m.read_int32 "ctx_id" d) in
      store_raw source (read_raw source kind d) (grow_at ctx current out) >>= λ out2.
      read_contexts ds ctx out2

  abbrev pub find_context : ℕ → m.Table → List Document
  find_context ctx t =
      if ctx == all_context_id
      then m.find_descending "ctx_id" everything t
      else m.find (equals "ctx_id" (int32 (signed32 ctx))) t

  unfoldable pub get_persistence_set_metadata_by_context :
      ℕ → Database m → Outcome (List PersistenceMetadata)
  get_persistence_set_metadata_by_context ctx db =
      read_contexts (find_context ctx db.table_persistence_metadata) 0 []

  -- The session number is stored as 32 bits and asked for as 64. The kind of data is not read: it is
  -- what the memory held.
  abbrev pub read_raw_by_set :
      EPersistenceSourceType → EPersistenceDataType → Document → PersistenceMetadataRaw
  read_raw_by_set source stale d = record {
    descr = record {
      persistence_set_id = m.read_int64 "persistence_id" d;
      context_id = to_uint32 (m.read_int32 "ctx_id" d);
      mission_id = to_uint32 (m.read_int32 "mission_id" d);
      time_step_interval_millisec = m.read_int64 "update_step_millisec" d;
      last_recorded_session = to_int32 (m.read_int64 "last_session_id" d);
      source_type = source;
      data_type = stale;
    };
    a = pos 0;
  }

  abbrev pub read_set :
      EPersistenceDataType → List Document → PersistenceMetadata → Outcome PersistenceMetadata
  read_set stale [] out = returned out
  read_set stale (d ∷ ds) out =
      convert_persistence_type_from_str (m.read_utf8 "source_type" d) >>= λ source.
      read_set stale ds (extend_raw source (read_raw_by_set source stale d) out)

  unfoldable pub get_persistence_set_metadata_by_set :
      EPersistenceDataType → ℤ → Database m → Outcome PersistenceMetadata
  get_persistence_set_metadata_by_set stale id db =
      read_set stale
        (m.find (equals "persistence_id" (int32 (to_int32 id))) db.table_persistence_metadata)
        new_metadata
