-- ===== src/Tests/Metadata.antt =====
-- The metadata of storage/database_manager_base.cpp over a driver in memory.
use microservice_common.Base.{
  ◌≡◌, refl, true, false, not, some, List, [], ◌∷◌, map, filter, is_empty, arith, All, subst,
}
use microservice_common.Base.Int.{ℤ, pos, negsuc, int_eq, int_eq_iff}
use microservice_common.Base.Counting.{SameItems}
use microservice_common.Common.Types.{Filter, Trajectory, cleared, active}
use microservice_common.Common.Outcome.{returned, aborted}
use microservice_common.Common.Persistence.{
  PersistenceMetadata, PersistenceMetadataDescr, autonomous_recorder, video_server, trajectory,
  weather,
}
use microservice_common.Mongo.Memory.{memory, memory-Reliable}
use microservice_common.Database.State.{Database, find_by_id}
use microservice_common.Database.Payload.{trajectory_document}
use microservice_common.Database.Payload.Range.{HoldsPayload}
use microservice_common.Database.Descriptions.Contents.{Description, encode, HoldsDescriptions}
use microservice_common.Database.Metadata.{get_persistence_set_metadata_by_context}
use microservice_common.Database.Metadata.Writing.{
  Connection, write_persistence_set_metadata_raw, write_persistence_set_metadata_video,
  write_persistence_set_metadata_dss,
}
use microservice_common.Database.Metadata.Deleting.{
  delete_persistence_set_metadata_by_set, delete_session_description_by_context, delete_total_data,
}
use microservice_common.Database.Metadata.Scan.{raw_sets, IsOnlyRaw}
use microservice_common.Database.Metadata.Contents.{
  StoredSet, set_document, is_from_recorder, in_context, as_raw, HoldsMetadata,
  get_persistence_set_metadata_by_context-SameItems,
}
use microservice_common.Database.Metadata.BySet.{
  Leaves, delete_persistence_set_metadata_by_set-Leaves,
}
use microservice_common.Database.Metadata.Created.{
  put_set, recorder_set, write_persistence_set_metadata-aborted,
  write_persistence_set_metadata_raw-created, written_set_read_back,
}
use microservice_common.Database.Metadata.Context.{
  has_set, delete_session_description_by_context-Holds,
}
use microservice_common.Database.Metadata.TotalData.{delete_total_data-Holds}

abbrev recorder_descr : PersistenceMetadataDescr
recorder_descr = record {
  persistence_set_id = pos 1;
  context_id = 7;
  mission_id = 4294967295;
  time_step_interval_millisec = pos 1000;
  last_recorded_session = pos 3;
  source_type = autonomous_recorder;
  data_type = trajectory;
}

abbrev video_descr : PersistenceMetadataDescr
video_descr = record recorder_descr {
  persistence_set_id = pos 2;
  source_type = video_server;
  data_type = weather;
}

abbrev new_descr : PersistenceMetadataDescr
new_descr = record recorder_descr { persistence_set_id = negsuc 0 }

abbrev stored_sets : List StoredSet
stored_sets =
    record { table_name = "raw"; descr = recorder_descr }
    ∷ record { table_name = "video"; descr = video_descr }
    ∷ []

abbrev empty_database : Database memory
empty_database = record {
  table_wal_client_operations = [];
  table_wal_process_events = [];
  table_wal_user_registrations = [];
  table_persistence_metadata = [];
  table_persistence_description = [];
  table_persistence_from_video = [];
  table_persistence_from_dss = [];
  tables_by_persistence_id = [];
}

abbrev context_payload : List Trajectory
context_payload =
    record {
      obj_id = pos 5;
      state = active;
      session_num = pos 2;
      logic_time = pos 1;
      astro_time_millisec = pos 100;
      lat_deg = 1;
      lon_deg = 2;
      height = 3;
      yaw_deg = 4;
    }
    ∷ []

abbrev described_sets : List Description
described_sets =
    record { pers_id = pos 1; info = record cleared { number = pos 2 } }
    ∷ record { pers_id = pos 2; info = record cleared { number = pos 3 } }
    ∷ []

abbrev set_database : Database memory
set_database = record empty_database {
  table_persistence_metadata = map set_document stored_sets;
  table_persistence_description = map encode described_sets;
  tables_by_persistence_id = (pos 1, map trajectory_document context_payload) ∷ (pos 2, []) ∷ [];
}

abbrev connection : Connection memory
connection = record {
  table_name_prefix = "dev_";
  collection = λ name. [];
  index_created = λ name. true;
  stale = weather;
}

holds_sets : HoldsMetadata memory set_database stored_sets
holds_sets = (refl, refl)

get_persistence_set_metadata_by_context-SameItems_example :
    (out : List PersistenceMetadata) × (get_persistence_set_metadata_by_context memory 7
        set_database
      ≡ returned out)
    × SameItems
        (raw_sets out)
        (map as_raw (filter is_from_recorder (filter (in_context 7) stored_sets)))
    × All IsOnlyRaw out
    × (is_empty out ≡ is_empty (filter (in_context 7) stored_sets))
get_persistence_set_metadata_by_context-SameItems_example =
    get_persistence_set_metadata_by_context-SameItems memory 7 set_database stored_sets refl
      holds_sets

written_set_read_back_example :
    (after : Database memory) × (write_persistence_set_metadata_raw memory connection
        (record { descr = recorder_descr; a = pos 0 })
        set_database
      ≡ returned (after, pos 1))
    × (out : List PersistenceMetadata) × (get_persistence_set_metadata_by_context memory 7 after
        ≡ returned out)
    × SameItems (raw_sets out) (
        map as_raw (
          filter is_from_recorder (
            filter (in_context 7) (
              put_set
                (recorder_set memory connection
                  (pos 1)
                  (record { descr = recorder_descr; a = pos 0 }))
                stored_sets))))
written_set_read_back_example =
    written_set_read_back memory connection memory-Reliable
      (record { descr = recorder_descr; a = pos 0 }) 7 set_database stored_sets refl refl holds_sets

write_persistence_set_metadata-aborted_example :
    (write_persistence_set_metadata_raw memory connection
        (record { descr = new_descr; a = pos 0 })
        set_database
      ≡ aborted)
    × (write_persistence_set_metadata_video memory connection
          (record { descr = new_descr; recorded_from_sensor_id = 9 })
          set_database
        ≡ aborted)
    × (write_persistence_set_metadata_dss memory connection
          (record { descr = new_descr; real_data = true })
          set_database
        ≡ aborted)
write_persistence_set_metadata-aborted_example =
    write_persistence_set_metadata-aborted memory connection new_descr 9 true (pos 0) set_database
      (record { table_name = "raw"; descr = recorder_descr })
      (record { table_name = "video"; descr = video_descr } ∷ []) refl holds_sets

write_persistence_set_metadata_raw-created_example :
    (after : Database memory) × (write_persistence_set_metadata_raw memory connection
        (record { descr = new_descr; a = pos 0 })
        empty_database
      ≡ returned (after, pos 1))
    × HoldsMetadata memory after
        (recorder_set memory connection (pos 1) (record { descr = new_descr; a = pos 0 }) ∷ [])
    × (find_by_id (pos 1) after.tables_by_persistence_id ≡ some [])
write_persistence_set_metadata_raw-created_example =
    write_persistence_set_metadata_raw-created memory connection memory-Reliable
      (record { descr = new_descr; a = pos 0 }) empty_database refl refl refl refl (refl, refl)

delete_persistence_set_metadata_by_set-Leaves_example :
    Leaves memory true
      (filter (λ s. not (int_eq (pos 1) s.descr.persistence_set_id)) stored_sets)
      (delete_persistence_set_metadata_by_set memory weather (pos 1) set_database)
delete_persistence_set_metadata_by_set-Leaves_example =
    delete_persistence_set_metadata_by_set-Leaves memory memory-Reliable weather (pos 1)
      set_database stored_sets holds_sets

delete_session_description_by_context-Holds_example :
    (after : Database memory) × (delete_session_description_by_context memory 7 set_database
      ≡ returned after)
    × HoldsDescriptions memory after
        (filter (λ d. not (has_set 7 stored_sets d.pers_id)) described_sets)
delete_session_description_by_context-Holds_example =
    delete_session_description_by_context-Holds memory memory-Reliable 7 set_database stored_sets
      described_sets refl holds_sets refl

abbrev leftover : Filter
leftover = record {
  persistence_set_id = negsuc 0;
  session_num = pos 5;
  max_logic_step = pos 0;
  min_logic_step = pos 0;
}

payload_of_set :
    (id : ℤ)
    → has_set 7 stored_sets id ≡ true
    → (ts : List Trajectory) × HoldsPayload memory id set_database ts
payload_of_set id h = (
  context_payload,
  subst (λ i. HoldsPayload memory i set_database context_payload)
      ((int_eq_iff (pos 1) id).0 (ground arith))
      (record {
        table = map trajectory_document context_payload;
        positive = omega arith;
        found = refl;
        encoded = refl;
      }),
)

delete_total_data-Holds_example :
    (after : Database memory) × (delete_total_data memory leftover 7 set_database ≡ returned after)
    × ((id : ℤ) → has_set 7 stored_sets id ≡ true → HoldsPayload memory id after [])
    × ((id : ℤ)
        → has_set 7 stored_sets id ≡ false
        → find_by_id id after.tables_by_persistence_id
          ≡ find_by_id id set_database.tables_by_persistence_id)
delete_total_data-Holds_example =
    delete_total_data-Holds memory memory-Reliable leftover 7 set_database stored_sets refl
      holds_sets payload_of_set
