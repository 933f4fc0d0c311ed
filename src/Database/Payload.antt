-- ===== src/Database/Payload.antt =====
-- storage/database_manager_base.cpp: the payload of persistence sets. The sets are taken to have
-- collections of different names, so that a write to one leaves the others alone. A logic step and a
-- session number are as the caller gives them: BSON keeps 64 and 32 bits, which their types have.
pub mod Range
use microservice_common.Base.{
  ℕ, zero, suc, ◌≡◌, String, Bool, true, false, not, ◌&&◌, List, [], ◌∷◌, Option, none, some, map,
  if◌then◌else◌,
}
use microservice_common.Base.Int.{ℤ, pos, int_eq, ltb_ℤ, leb_ℤ}
use microservice_common.Common.Types.{
  Trajectory, Filter, EState, active, destroyed, absent, undefined_state, state_number,
}
use microservice_common.Common.Outcome.{Outcome, returned, aborted, undefined, ◌>>=◌, asserting}
use microservice_common.Mongo.Document.{Document, int32, int64, double}
use microservice_common.Mongo.Query.{Query, everything, equals, at_least, at_most, both}
use microservice_common.Mongo.Driver.{Driver}
use microservice_common.Database.State.{Database, find_by_id}

abbrev pub is_found {ℓ} : {A : Type ℓ} → Option A → Bool
is_found none = false
is_found (some a) = true

abbrev pub found_or_undefined {ℓ} : {A : Type ℓ} → Option A → Outcome A
found_or_undefined none = undefined
found_or_undefined (some a) = returned a

abbrev pub put_by_id {ℓ} : {A : Type ℓ} → ℤ → A → List (ℤ × A) → List (ℤ × A)
put_by_id id a [] = []
put_by_id id a ((j, b) ∷ rest) = if int_eq j id then (j, a) ∷ rest else (j, b) ∷ put_by_id id a rest

abbrev pub trajectory_document : Trajectory → Document
trajectory_document t =
    ("objrepr_id", int64 t.obj_id)
    ∷ ("state", int32 (state_number t.state))
    ∷ ("astro_time", int64 t.astro_time_millisec)
    ∷ ("logic_time", int64 t.logic_time)
    ∷ ("session", int32 t.session_num)
    ∷ ("lat", double t.lat_deg)
    ∷ ("lon", double t.lon_deg)
    ∷ ("height", double t.height)
    ∷ ("yaw", double t.yaw_deg)
    ∷ []

-- The cast of a number to the enumeration, for the numbers that it has.
abbrev pub state_of_number : ℤ → EState
state_of_number (pos zero) = active
state_of_number (pos (suc zero)) = destroyed
state_of_number (pos (suc (suc zero))) = absent
state_of_number _ = undefined_state

abbrev pub is_active : EState → Bool
is_active active = true
is_active _ = false

-- The three queries of readTrajectoryData: one step, a range of steps, the whole collection.
unfoldable pub filter_query : Filter → Query
filter_query f =
    if int_eq f.min_logic_step f.max_logic_step && leb_ℤ (pos 0) f.min_logic_step
    then both (equals "session" (int32 f.session_num))
        (equals "logic_time" (int64 f.min_logic_step))
    else (if leb_ℤ (pos 0) f.min_logic_step && leb_ℤ (pos 0) f.max_logic_step
        then both (equals "session" (int32 f.session_num))
            (both (at_least "logic_time" f.min_logic_step) (at_most "logic_time" f.max_logic_step))
        else everything)

module _ (m : Driver) where
  unfoldable pub get_payload_table_ref : ℤ → Database m → Outcome m.Table
  get_payload_table_ref id db =
      let table = find_by_id id db.tables_by_persistence_id in
      asserting (ltb_ℤ (pos 0) id && is_found table) (found_or_undefined table)

  -- A collection's name stands under the same numbers as the collection.
  unfoldable pub get_table_name : ℤ → Database m → Outcome m.Table
  get_table_name id db =
      let table = find_by_id id db.tables_by_persistence_id in
      asserting (is_found table) (found_or_undefined table)

  abbrev pub with_payload : ℤ → m.Table → Database m → Database m
  with_payload id t db = record db {
    tables_by_persistence_id = put_by_id id t db.tables_by_persistence_id;
  }

  unfoldable pub write_trajectory_data :
      ℤ → List Trajectory → Database m → Outcome (Database m × Bool)
  write_trajectory_data id data_ db = get_payload_table_ref id db >>= λ t.
      let (t2, rt) = m.insert_bulk (map trajectory_document data_) t in
      returned (with_payload id t2 db, rt)

  -- The position is read for an active object only: otherwise the fields of the object, which has no
  -- constructor, keep what `stale` holds of it.
  abbrev pub read_trajectory : Trajectory → Document → Trajectory
  read_trajectory stale d =
      let state_ = state_of_number (m.read_int32 "state" d) in
      let read_position = is_active state_ in
      record {
        obj_id = m.read_int64 "objrepr_id" d;
        state = state_;
        session_num = m.read_int32 "session" d;
        logic_time = m.read_int64 "logic_time" d;
        astro_time_millisec = m.read_int64 "astro_time" d;
        lat_deg = if read_position then m.read_double "lat" d else stale.lat_deg;
        lon_deg = if read_position then m.read_double "lon" d else stale.lon_deg;
        height = if read_position then m.read_double "height" d else stale.height;
        yaw_deg = if read_position then m.read_double "yaw" d else stale.yaw_deg;
      }

  -- The loop over the cursor: each turn has an object of its own, and `stale n` is what the n-th holds.
  abbrev pub read_trajectories : (ℕ → Trajectory) → ℕ → List Document → List Trajectory
  read_trajectories stale n [] = []
  read_trajectories stale n (d ∷ ds) =
      read_trajectory (stale n) d ∷ read_trajectories stale (suc n) ds

  unfoldable pub read_trajectory_data :
      (ℕ → Trajectory) → Filter → Database m → Outcome (List Trajectory)
  read_trajectory_data stale f db = get_payload_table_ref f.persistence_set_id db >>= λ t.
      returned (read_trajectories stale 0 (m.find (filter_query f) t))

  -- The filter's session and steps are not looked at.
  unfoldable pub delete_data_range : Filter → Database m → Outcome (Database m)
  delete_data_range f db = get_payload_table_ref f.persistence_set_id db >>= λ t.
      let (t2, result) = m.remove everything t in returned (with_payload f.persistence_set_id t2 db)
