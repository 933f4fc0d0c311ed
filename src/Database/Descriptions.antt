-- ===== src/Database/Descriptions.antt =====
-- storage/database_manager_base.cpp: the stored descriptions of sessions.
pub mod Contents
pub mod Distinct
use microservice_common.Base.{
  String, Bool, true, false, not, List, [], ◌∷◌, map, is_empty, if◌then◌else◌,
}
use microservice_common.Base.Int.{ℤ, pos, int_eq}
use microservice_common.Common.Types.{EventsSessionInfo}
use microservice_common.Mongo.Document.{Document, int32, int64}
use microservice_common.Mongo.Query.{Query, equals, both}
use microservice_common.Mongo.Driver.{Driver}
use microservice_common.Database.State.{Database}

-- common_vars::ALL_SESSION_NUM, the greatest int32.
abbrev pub all_session_num : ℤ
all_session_num = pos 2147483647

-- The document of insertSessionDescription, and the `$set` document of updateSessionDescription.
abbrev pub description_document : ℤ → EventsSessionInfo → Document
description_document pers_id descr =
    ("persistence_id", int64 pers_id)
    ∷ ("session_num", int32 descr.number)
    ∷ ("logic_time_min", int64 descr.min_logic_step)
    ∷ ("logic_time_max", int64 descr.max_logic_step)
    ∷ ("astro_time_min", int64 descr.min_timestamp_millisec)
    ∷ ("astro_time_max", int64 descr.max_timestamp_millisec)
    ∷ ("empty_steps_begin", int32 (pos 0))
    ∷ ("empty_steps_end", int32 (pos 0))
    ∷ []

module _ (m : Driver) where
  unfoldable pub is_session_exist_in_description : ℤ → Database m → Bool
  is_session_exist_in_description session_num db = not (
      is_empty (m.find (equals "session_num" (int32 session_num)) db.table_persistence_description))

  unfoldable pub insert_session_description : ℤ → EventsSessionInfo → Database m → Database m × Bool
  insert_session_description pers_id descr db =
      if is_session_exist_in_description descr.number db
      then (db, false)
      else (let (t, rt) =
            m.insert (description_document pers_id descr) db.table_persistence_description in
          (record db { table_persistence_description = t }, rt))

  unfoldable pub update_session_description : ℤ → EventsSessionInfo → Database m → Database m × Bool
  update_session_description pers_id descr db =
      if not (is_session_exist_in_description descr.number db)
      then (db, false)
      else (let (t, rt) =
            m.update false (equals "session_num" (int32 descr.number))
              (description_document pers_id descr) db.table_persistence_description in
          (record db { table_persistence_description = t }, rt))

  abbrev pub read_description : Document → EventsSessionInfo
  read_description d = record {
    number = m.read_int32 "session_num" d;
    min_logic_step = m.read_int64 "logic_time_min" d;
    max_logic_step = m.read_int64 "logic_time_max" d;
    min_timestamp_millisec = m.read_int64 "astro_time_min" d;
    max_timestamp_millisec = m.read_int64 "astro_time_max" d;
    steps = [];
    empty_steps_begin = m.read_int32 "empty_steps_begin" d;
    empty_steps_end = m.read_int32 "empty_steps_end" d;
  }

  unfoldable pub select_session_descriptions : ℤ → Database m → List EventsSessionInfo
  select_session_descriptions pers_id db =
      map read_description
        (m.find (equals "persistence_id" (int64 pers_id)) db.table_persistence_description)

  unfoldable pub delete_session_description : ℤ → ℤ → Database m → Database m
  delete_session_description pers_id session_num db =
      let query =
        if int_eq all_session_num session_num
        then equals "persistence_id" (int64 pers_id)
        else both (equals "persistence_id" (int64 pers_id))
            (equals "session_num" (int32 session_num)) in
      let (t, result) = m.remove query db.table_persistence_description in
      record db { table_persistence_description = t }
