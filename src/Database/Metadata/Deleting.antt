-- ===== src/Database/Metadata/Deleting.antt =====
-- storage/database_manager_base.cpp: deleting by persistence set and by context.
use microservice_common.Base.{ℕ, Bool, not, ◌||◌, List, [], ◌∷◌, ◌++◌, map, is_empty}
use microservice_common.Base.Int.{ℤ}
use microservice_common.Base.Words.{signed32}
use microservice_common.Common.Types.{Filter}
use microservice_common.Common.Outcome.{Outcome, returned, ◌>>=◌, asserting}
use microservice_common.Common.Persistence.{EPersistenceDataType, PersistenceMetadata}
use microservice_common.Mongo.Document.{int32, int64}
use microservice_common.Mongo.Query.{equals}
use microservice_common.Mongo.Driver.{Driver}
use microservice_common.Database.State.{Database}
use microservice_common.Database.Descriptions.{all_session_num, delete_session_description}
use microservice_common.Database.Metadata.{
  get_persistence_set_metadata_by_context, get_persistence_set_metadata_by_set,
}
use microservice_common.Database.Payload.{delete_data_range}

-- The sets that a context's metadata names, in the order of the three loops.
abbrev pub sets_of : PersistenceMetadata → List ℤ
sets_of meta =
    map (λ x. x.descr.persistence_set_id) meta.persistence_from_dss
    ++ map (λ x. x.descr.persistence_set_id) meta.persistence_from_raw
    ++ map (λ x. x.descr.persistence_set_id) meta.persistence_from_video

abbrev pub all_sets_of : List PersistenceMetadata → List ℤ
all_sets_of [] = []
all_sets_of (meta ∷ metas) = sets_of meta ++ all_sets_of metas

abbrev pub holds_a_set : PersistenceMetadata → Bool
holds_a_set meta =
    not (is_empty meta.persistence_from_dss)
    || not (is_empty meta.persistence_from_raw)
    || not (is_empty meta.persistence_from_video)

module _ (m : Driver) where
  -- deletePersistenceFromDSS, -Raw and -Video, one of which is called, do nothing.
  unfoldable pub delete_persistence_set_metadata_by_set :
      EPersistenceDataType → ℤ → Database m → Outcome (Database m)
  delete_persistence_set_metadata_by_set stale id db =
      get_persistence_set_metadata_by_set m stale id db >>= λ metadata.
      asserting (holds_a_set metadata) (
        let (t, result) =
          m.remove (equals "persistence_id" (int64 id)) db.table_persistence_metadata in
        returned (record db { table_persistence_metadata = t }))

  unfoldable pub delete_persistence_set_metadata_by_context : ℕ → Database m → Outcome (Database m)
  delete_persistence_set_metadata_by_context ctx db =
      get_persistence_set_metadata_by_context m ctx db >>= λ metadatas.
      let (t, result) =
        m.remove (equals "ctx_id" (int32 (signed32 ctx))) db.table_persistence_metadata in
      returned (record db { table_persistence_metadata = t })

  -- The filter of a set's number alone; `leftover` is what the memory holds for its other fields.
  abbrev pub delete_ranges : Filter → List ℤ → Database m → Outcome (Database m)
  delete_ranges leftover [] db = returned db
  delete_ranges leftover (id ∷ ids) db =
      delete_data_range m (record leftover { persistence_set_id = id }) db >>= λ db2.
      delete_ranges leftover ids db2

  unfoldable pub delete_total_data : Filter → ℕ → Database m → Outcome (Database m)
  delete_total_data leftover ctx db =
      get_persistence_set_metadata_by_context m ctx db >>= λ metadatas.
      delete_ranges leftover (all_sets_of metadatas) db

  abbrev pub delete_descriptions : List ℤ → Database m → Database m
  delete_descriptions [] db = db
  delete_descriptions (id ∷ ids) db =
      delete_descriptions ids (delete_session_description m id all_session_num db)

  unfoldable pub delete_session_description_by_context : ℕ → Database m → Outcome (Database m)
  delete_session_description_by_context ctx db =
      get_persistence_set_metadata_by_context m ctx db >>= λ metadatas.
      returned (delete_descriptions (all_sets_of metadatas) db)
