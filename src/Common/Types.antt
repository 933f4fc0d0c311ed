-- ===== src/Common/Types.antt =====
-- common/ms_common_types.h: the records that components exchange.
use microservice_common.Base.{ℕ, String, Bool, List, [], ◌&&◌, is_empty}
use microservice_common.Base.Int.{ℤ, pos, int_eq}

-- SWALClientOperation. `unique_key` names a client's command, `begin` opens or ends it.
pub record ClientOperation : Type 0 where
  pub unique_key : String
  pub begin : Bool
  pub command_full_text : String

abbrev pub all_keys : String
all_keys = "all_keys"

abbrev pub non_integrity_keys : String
non_integrity_keys = "non_integrity_keys"

-- SWALUserRegistration.
pub record UserRegistration : Type 0 where
  pub register_id : String
  pub user_ip : String
  pub user_pid : ℤ
  pub registered_at_date_time : String

-- SWALProcessEvent.
pub record ProcessEvent : Type 0 where
  pub pid : ℤ
  pub begin : Bool
  pub program_name : String
  pub program_args : List String

abbrev pub all_pids : ℤ
all_pids = pos 0

abbrev pub non_integrity_pids : ℤ
non_integrity_pids = pos 1

-- SPersistenceObj::EState.
pub data EState : Type 0 where
  active destroyed absent undefined_state : EState

-- The numbers of the enumerators, as (int32_t) gives them.
abbrev pub state_number : EState → ℤ
state_number active = pos 0
state_number destroyed = pos 1
state_number absent = pos 2
state_number undefined_state = pos 3

-- SPersistenceTrajectory, with its base SPersistenceObj. A `double` is its 64 bits; `ctxId` and
-- `missionId`, which the storage does not keep, are left out.
pub record Trajectory : Type 0 where
  pub obj_id : ℤ
  pub state : EState
  pub session_num : ℤ
  pub logic_time : ℤ
  pub astro_time_millisec : ℤ
  pub lat_deg : ℕ
  pub lon_deg : ℕ
  pub height : ℕ
  pub yaw_deg : ℕ

-- SPersistenceSetFilter.
pub record Filter : Type 0 where
  pub persistence_set_id : ℤ
  pub session_num : ℤ
  pub max_logic_step : ℤ
  pub min_logic_step : ℤ

-- SObjectStep.
pub record ObjectStep : Type 0 where
  pub logic_step : ℤ
  pub timestamp_millisec : ℤ

-- SEventsSessionInfo.
pub record EventsSessionInfo : Type 0 where
  pub number : ℤ
  pub min_logic_step : ℤ
  pub max_logic_step : ℤ
  pub min_timestamp_millisec : ℤ
  pub max_timestamp_millisec : ℤ
  pub steps : List ObjectStep
  pub empty_steps_begin : ℤ
  pub empty_steps_end : ℤ

-- SEventsSessionInfo::clear, which is also what its constructor does.
abbrev pub cleared : EventsSessionInfo
cleared = record {
  number = pos 0;
  min_logic_step = pos 0;
  max_logic_step = pos 0;
  min_timestamp_millisec = pos 0;
  max_timestamp_millisec = pos 0;
  steps = [];
  empty_steps_begin = pos 0;
  empty_steps_end = pos 0;
}

-- SEventsSessionInfo::empty.
abbrev pub is_cleared : EventsSessionInfo → Bool
is_cleared s =
    int_eq (pos 0) s.number
    && int_eq (pos 0) s.min_logic_step
    && int_eq (pos 0) s.max_logic_step
    && int_eq (pos 0) s.min_timestamp_millisec
    && int_eq (pos 0) s.max_timestamp_millisec
    && is_empty s.steps
    && int_eq (pos 0) s.empty_steps_begin
    && int_eq (pos 0) s.empty_steps_end
