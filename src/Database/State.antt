-- ===== src/Database/State.antt =====
-- storage/database_manager_base.h: the collections that a DatabaseManagerBase holds after `init`, and
-- the payload collections by persistence set.
use microservice_common.Base.{List, [], ◌∷◌, Option, none, some, if◌then◌else◌}
use microservice_common.Base.Int.{ℤ, int_eq}
use microservice_common.Mongo.Driver.{Driver}

pub record Database (m : Driver) : Type 0 where
  pub table_wal_client_operations : m.Table
  pub table_wal_process_events : m.Table
  pub table_wal_user_registrations : m.Table
  pub table_persistence_metadata : m.Table
  pub table_persistence_description : m.Table
  pub table_persistence_from_video : m.Table
  pub table_persistence_from_dss : m.Table
  pub tables_by_persistence_id : List (ℤ × m.Table)

-- `std::unordered_map::find`.
abbrev pub find_by_id {ℓ} : {A : Type ℓ} → ℤ → List (ℤ × A) → Option A
find_by_id id [] = none
find_by_id id ((j, a) ∷ rest) = if int_eq j id then some a else find_by_id id rest
