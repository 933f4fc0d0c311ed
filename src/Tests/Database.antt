-- ===== src/Tests/Database.antt =====
-- storage/database_manager_base.cpp over a driver in memory.
use microservice_common.Mongo.Document.{int32}
use microservice_common.Base.{
  some, ◌≤◌, ◌≡◌, refl, true, not, ◌&&◌, ◌||◌, List, [], ◌∷◌, ◌++◌, map, filter, arith,
}
use microservice_common.Base.Int.{ℤ, pos, int_eq}
use microservice_common.Base.Counting.{count}
use microservice_common.Common.Types.{
  Trajectory, Filter, EventsSessionInfo, cleared, active, absent,
}
use microservice_common.Common.Outcome.{returned}
use microservice_common.Mongo.Memory.{memory, memory-Reliable}
use microservice_common.Mongo.Pipeline.{sessions_of, Step}
use microservice_common.Mongo.Steps.{IsAscending, Covered, Given}
use microservice_common.Database.State.{Database}
use microservice_common.Database.Descriptions.{
  all_session_num, is_session_exist_in_description, insert_session_description,
  update_session_description, select_session_descriptions, delete_session_description,
}
use microservice_common.Database.Descriptions.Contents.{
  Description, encode, has_number, in_set, replace_number, HoldsDescriptions, Stores,
  insert_session_description-Stores, update_session_description-Stores,
  delete_session_description-Holds,
}
use microservice_common.Database.Descriptions.Distinct.{
  DescriptionCall, inserts, updates, run_calls, HoldsDistinct, select_session_descriptions-distinct,
}
use microservice_common.Database.Payload.{trajectory_document, write_trajectory_data}
use microservice_common.Database.Payload.Range.{HoldsPayload, write_trajectory_data-Holds}
use microservice_common.Database.Sessions.{get_session_info, get_session_steps}
use microservice_common.Database.Sessions.Bounds.{
  row, IsBounded, object_step, get_session_info-IsBounded, get_session_steps-sorted,
}

abbrev second_session : EventsSessionInfo
second_session = record cleared { number = pos 2; max_logic_step = pos 9 }

abbrev third_session : EventsSessionInfo
third_session = record cleared { number = pos 3; max_logic_step = pos 4 }

abbrev described : List Description
described = record { pers_id = pos 1; info = second_session } ∷ []

abbrev trajectory_at : ℤ → ℤ → Trajectory
trajectory_at logic astro = record {
  obj_id = pos 5;
  state = active;
  session_num = pos 2;
  logic_time = logic;
  astro_time_millisec = astro;
  lat_deg = 1;
  lon_deg = 2;
  height = 3;
  yaw_deg = 4;
}

abbrev payload : List Trajectory
payload =
    trajectory_at (pos 4) (pos 400)
    ∷ trajectory_at (pos 3) (pos 300)
    ∷ trajectory_at (pos 4) (pos 410)
    ∷ []

abbrev more_payload : List Trajectory
more_payload = record (trajectory_at (pos 8) (pos 800)) { state = absent } ∷ []

abbrev database : Database memory
database = record {
  table_wal_client_operations = [];
  table_wal_process_events = [];
  table_wal_user_registrations = [];
  table_persistence_metadata = [];
  table_persistence_description = map encode described;
  table_persistence_from_video = [];
  table_persistence_from_dss = [];
  tables_by_persistence_id = (pos 1, map trajectory_document payload) ∷ [];
}

abbrev range : Filter
range = record {
  persistence_set_id = pos 1;
  session_num = pos 2;
  max_logic_step = pos 9;
  min_logic_step = pos 4;
}

holds_described : HoldsDescriptions memory database described
holds_described = refl

holds_payload : HoldsPayload memory (pos 1) database payload
holds_payload = record {
  table = map trajectory_document payload;
  positive = omega arith;
  found = refl;
  encoded = refl;
}

distinct_described : HoldsDistinct memory database
distinct_described = (described, refl, record { at_most_one = λ n. ground arith })

insert_session_description-Stores_example :
    Stores memory database true
      (described ++ record { pers_id = pos 1; info = third_session } ∷ [])
      (insert_session_description memory (pos 1) third_session database)
insert_session_description-Stores_example =
    insert_session_description-Stores memory memory-Reliable (pos 1) third_session database
      described holds_described

update_session_description-Stores_example :
    Stores memory database true
      (replace_number (record { pers_id = pos 7; info = second_session }) described)
      (update_session_description memory (pos 7) second_session database)
update_session_description-Stores_example =
    update_session_description-Stores memory memory-Reliable (pos 7) second_session database
      described holds_described

delete_session_description-Holds_example :
    HoldsDescriptions memory (delete_session_description memory (pos 1) (pos 2) database) (
      filter
        (λ d. not (in_set (pos 1) d && (int_eq all_session_num (pos 2) || has_number (pos 2) d)))
        described)
delete_session_description-Holds_example =
    delete_session_description-Holds memory memory-Reliable (pos 1) (pos 2) database described
      holds_described

abbrev calls : List DescriptionCall
calls =
    inserts (pos 1) third_session
    ∷ updates (pos 7) second_session
    ∷ inserts (pos 7) third_session
    ∷ []

select_session_descriptions-distinct_example :
    count
      (λ s. int_eq (pos 3) s.number)
      (select_session_descriptions memory (pos 1) (run_calls memory calls database))
    ≤ 1
select_session_descriptions-distinct_example =
    select_session_descriptions-distinct memory memory-Reliable calls database (pos 1) (pos 3)
      distinct_described

updated : (update_session_description memory (pos 7) second_session database).1 ≡ true
unfolding update_session_description is_session_exist_in_description
updated = refl

write_trajectory_data-Holds_example :
    (after : Database memory) × (write_trajectory_data memory (pos 1) more_payload database
      ≡ returned (after, true))
    × HoldsPayload memory (pos 1) after (payload ++ more_payload)
write_trajectory_data-Holds_example =
    write_trajectory_data-Holds memory memory-Reliable (pos 1) more_payload payload database
      holds_payload

get_session_info-IsBounded_example :
    (info : EventsSessionInfo) × (get_session_info memory (pos 1) (pos 2) database ≡ returned info)
    × IsBounded (pos 2) payload info
get_session_info-IsBounded_example =
    get_session_info-IsBounded memory (pos 1) (pos 2) payload database holds_payload refl

get_session_steps-sorted_example :
    (steps : List Step) × (get_session_steps memory (pos 1) (pos 2) database
      ≡ returned (map object_step steps))
    × IsAscending steps
    × Covered (pos 2) steps (map row payload)
    × Given (pos 2) (map row payload) steps
get_session_steps-sorted_example =
    get_session_steps-sorted memory (pos 1) (pos 2) payload database holds_payload

one_session : memory.distinct "session" holds_payload.table ≡ some (int32 (pos 2) ∷ [])
unfolding sessions_of holds_payload
one_session = refl
