-- ===== src/Common/Persistence.antt =====
-- common/ms_common_types.h and common/ms_common_utils.h: the metadata of persistence sets.
use microservice_common.Base.{ℕ, ◌≡◌, refl, String, Bool, List, [], str_eq, if◌then◌else◌}
use microservice_common.Base.Int.{ℤ, negsuc}
use microservice_common.Common.Outcome.{Outcome, returned, aborted}

-- EPersistenceSourceType and EPersistenceDataType.
pub data EPersistenceSourceType : Type 0 where
  video_server dss autonomous_recorder undefined_source : EPersistenceSourceType

pub data EPersistenceDataType : Type 0 where
  trajectory weather undefined_data : EPersistenceDataType

-- INVALID_PERSISTENCE_ID and common_vars::INVALID_PERS_ID.
abbrev pub invalid_persistence_id : ℤ
invalid_persistence_id = negsuc 0

-- SPersistenceMetadataDescr. TContextId and TMissionId are below 2 ^ 32.
pub record PersistenceMetadataDescr : Type 0 where
  pub persistence_set_id : ℤ
  pub context_id : ℕ
  pub mission_id : ℕ
  pub time_step_interval_millisec : ℤ
  pub last_recorded_session : ℤ
  pub source_type : EPersistenceSourceType
  pub data_type : EPersistenceDataType

-- SPersistenceMetadataVideo, SPersistenceMetadataDSS and SPersistenceMetadataRaw: `descr` is the base.
pub record PersistenceMetadataVideo : Type 0 where
  pub descr : PersistenceMetadataDescr
  pub recorded_from_sensor_id : ℕ

pub record PersistenceMetadataDss : Type 0 where
  pub descr : PersistenceMetadataDescr
  pub real_data : Bool

pub record PersistenceMetadataRaw : Type 0 where
  pub descr : PersistenceMetadataDescr
  pub a : ℤ

-- SPersistenceMetadata.
pub record PersistenceMetadata : Type 0 where
  pub persistence_from_video : List PersistenceMetadataVideo
  pub persistence_from_dss : List PersistenceMetadataDss
  pub persistence_from_raw : List PersistenceMetadataRaw

-- What `resize` adds.
abbrev pub new_metadata : PersistenceMetadata
new_metadata = record {
  persistence_from_video = [];
  persistence_from_dss = [];
  persistence_from_raw = [];
}

unfoldable pub convert_persistence_type_to_str : EPersistenceSourceType → String
convert_persistence_type_to_str video_server = "VIDEO_SERVER"
convert_persistence_type_to_str autonomous_recorder = "AUTONOMOUS_RECORDER"
convert_persistence_type_to_str dss = "DSS"
convert_persistence_type_to_str undefined_source = "UNDEFINED"

unfoldable pub convert_persistence_type_from_str : String → Outcome EPersistenceSourceType
convert_persistence_type_from_str s =
    if str_eq "VIDEO_SERVER" s
    then returned video_server
    else (if str_eq "AUTONOMOUS_RECORDER" s
        then returned autonomous_recorder
        else (if str_eq "DSS" s
            then returned dss
            else (if str_eq "UNDEFINED" s then returned undefined_source else aborted)))

-- convertDataTypeToStr and convertDataTypeFromStr of storage/database_manager_base.cpp.
unfoldable pub convert_data_type_to_str : EPersistenceDataType → Outcome String
convert_data_type_to_str trajectory = returned "traj"
convert_data_type_to_str weather = returned "weather"
convert_data_type_to_str undefined_data = aborted

unfoldable pub convert_data_type_from_str : String → Outcome EPersistenceDataType
convert_data_type_from_str s =
    if str_eq "traj" s
    then returned trajectory
    else (if str_eq "weather" s then returned weather else aborted)

-- A type that is printed is read back.
pub convert_persistence_type_from_str-convert_persistence_type_to_str :
    (t : EPersistenceSourceType)
    → convert_persistence_type_from_str (convert_persistence_type_to_str t) ≡ returned t
unfolding convert_persistence_type_to_str convert_persistence_type_from_str
convert_persistence_type_from_str-convert_persistence_type_to_str video_server = refl
convert_persistence_type_from_str-convert_persistence_type_to_str dss = refl
convert_persistence_type_from_str-convert_persistence_type_to_str autonomous_recorder = refl
convert_persistence_type_from_str-convert_persistence_type_to_str undefined_source = refl
