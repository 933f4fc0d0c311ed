-- ===== src/Database/Sessions.antt =====
-- storage/database_manager_base.cpp: the sessions that the payload of a set shows.
pub mod Bounds
pub mod Gaps
pub mod Head
use microservice_common.Base.{
  ℕ, ◌≡◌, String, Bool, true, false, not, ◌&&◌, List, [], ◌∷◌, ◌++◌, Option, none, some, map,
  if◌then◌else◌,
}
use microservice_common.Base.Int.{ℤ, pos, negsuc, int_eq, ltb_ℤ, leb_ℤ, suc_ℤ}
use microservice_common.Common.Types.{EventsSessionInfo, ObjectStep, cleared}
use microservice_common.Common.Outcome.{Outcome, returned, aborted, undefined, ◌>>=◌, asserting}
use microservice_common.Mongo.Document.{Value, Document, int32, int64}
use microservice_common.Mongo.Pipeline.{steps_pipeline}
use microservice_common.Mongo.Driver.{Driver}
use microservice_common.Database.State.{Database}
use microservice_common.Database.Payload.{get_payload_table_ref, get_table_name}

-- The reading loop over the reply of `distinct`: values of another type are skipped.
abbrev pub int32_values : List Value → List ℤ
int32_values [] = []
int32_values (int32 n ∷ vs) = n ∷ int32_values vs
int32_values (_ ∷ vs) = int32_values vs

-- std::min_element and std::max_element, the first among equals.
abbrev pub min_from : ℤ → List ℤ → ℤ
min_from a [] = a
min_from a (b ∷ bs) = min_from (if ltb_ℤ b a then b else a) bs

abbrev pub max_from : ℤ → List ℤ → ℤ
max_from a [] = a
max_from a (b ∷ bs) = max_from (if ltb_ℤ a b then b else a) bs

-- The dereferenced end of an empty vector.
unfoldable pub min_element : List ℤ → Outcome ℤ
min_element [] = undefined
min_element (a ∷ as_) = returned (min_from a as_)

unfoldable pub max_element : List ℤ → Outcome ℤ
max_element [] = undefined
max_element (a ∷ as_) = returned (max_from a as_)

abbrev insert_sorted : EventsSessionInfo → List EventsSessionInfo → List EventsSessionInfo
insert_sorted s [] = s ∷ []
insert_sorted s (t ∷ ts) = if ltb_ℤ t.number s.number then t ∷ insert_sorted s ts else s ∷ t ∷ ts

-- std::sort by the session's number.
unfoldable pub sort_sessions : List EventsSessionInfo → List EventsSessionInfo
sort_sessions [] = []
sort_sessions (s ∷ ss) = insert_sorted s (sort_sessions ss)

unfoldable pub collect {ℓ κ} :
    {A : Type ℓ} {B : Type κ} → (A → Outcome (List B)) → List A → Outcome (List B)
collect f [] = returned []
collect f (a ∷ as_) = f a >>= λ found. collect f as_ >>= λ rest. returned (found ++ rest)

abbrev set_bounds : ℤ → ObjectStep → ObjectStep → List ObjectStep → EventsSessionInfo
set_bounds n first last steps = record cleared {
  number = n;
  min_logic_step = first.logic_step;
  max_logic_step = last.logic_step;
  min_timestamp_millisec = first.timestamp_millisec;
  max_timestamp_millisec = last.timestamp_millisec;
  steps = steps;
}

abbrev last_step : ObjectStep → List ObjectStep → ObjectStep
last_step s [] = s
last_step s (t ∷ ts) = last_step t ts

-- front() and back() of an empty vector are undefined.
abbrev pub session_of_steps : ℤ → List ObjectStep → Outcome EventsSessionInfo
session_of_steps n [] = undefined
session_of_steps n (s ∷ ss) = returned (set_bounds n s (last_step s ss) (s ∷ ss))

-- What the loop of splitSessionByGaps carries: the sessions found, the current one, sessionOpened and
-- previousStep.
pub record Splitting : Type 0 where
  pub out : List EventsSessionInfo
  pub session : EventsSessionInfo
  pub session_opened : Bool
  pub previous_step : ℤ

abbrev pub unsplit : Splitting
unsplit = record { out = []; session = cleared; session_opened = false; previous_step = pos 0 }

module _ (m : Driver) where
  -- One document of the cursor of splitSessionByGaps.
  unfoldable pub split_document : ℤ → Document → Splitting → Splitting
  split_document n d s =
      let logic_step = m.read_int64 "_id" d in
      if s.session_opened
      then (if int_eq logic_step (suc_ℤ s.previous_step)
          then record s { previous_step = logic_step }
          else record {
            out =
                s.out
                ++ record s.session {
                  max_logic_step = logic_step;
                  max_timestamp_millisec = m.read_int64 "maxAstroTime" d;
                  number = n;
                }
                  ∷ [];
            session = cleared;
            session_opened = false;
            previous_step = logic_step;
          })
      else record s {
        session = record s.session {
          min_logic_step = logic_step;
          min_timestamp_millisec = m.read_int64 "maxAstroTime" d;
        };
        previous_step = logic_step;
      }

  unfoldable pub split_loop : ℤ → List Document → Splitting → Splitting
  split_loop n [] s = s
  split_loop n (d ∷ ds) s = split_loop n ds (split_document n d s)

  unfoldable pub split_session_by_gaps : ℤ → ℤ → Database m → Outcome (List EventsSessionInfo)
  split_session_by_gaps id n db = get_payload_table_ref m id db >>= λ t.
      let end_ = split_loop n (m.aggregate (steps_pipeline n (pos 1)) t) unsplit in
      returned end_.out

  -- The two loops of getSessionInfo: each document overwrites what the one before gave.
  unfoldable pub read_minimum : List Document → EventsSessionInfo → EventsSessionInfo
  read_minimum [] s = s
  read_minimum (d ∷ ds) s = read_minimum ds (record s {
    min_logic_step = m.read_int64 "_id" d;
    min_timestamp_millisec = m.read_int64 "maxAstroTime" d;
  })

  unfoldable pub read_maximum : List Document → EventsSessionInfo → EventsSessionInfo
  read_maximum [] s = s
  read_maximum (d ∷ ds) s = read_maximum ds (record s {
    max_logic_step = m.read_int64 "_id" d;
    max_timestamp_millisec = m.read_int64 "maxAstroTime" d;
  })

  unfoldable pub get_session_info : ℤ → ℤ → Database m → Outcome EventsSessionInfo
  get_session_info id n db = get_payload_table_ref m id db >>= λ t.
      let fresh = record cleared { number = n } in
      let with_min = read_minimum (m.aggregate (steps_pipeline n (negsuc 0)) t) fresh in
      returned (read_maximum (m.aggregate (steps_pipeline n (pos 1)) t) with_min)

  abbrev pub read_step : Document → ObjectStep
  read_step d = record {
    logic_step = m.read_int64 "_id" d;
    timestamp_millisec = m.read_int64 "maxAstroTime" d;
  }

  unfoldable pub get_session_steps : ℤ → ℤ → Database m → Outcome (List ObjectStep)
  get_session_steps id n db = get_payload_table_ref m id db >>= λ t.
      returned (map read_step (m.aggregate (steps_pipeline n (pos 1)) t))

  -- A failed command ends the scan with `nothing`.
  abbrev scan {ℓ} : {A : Type ℓ} → A → (List ℤ → Outcome A) → Option (List Value) → Outcome A
  scan nothing go none = returned nothing
  scan nothing go (some vs) = go (int32_values vs)

  unfoldable pub scan_payload_head_for_sessions : ℤ → Database m → Outcome EventsSessionInfo
  scan_payload_head_for_sessions id db = get_table_name m id db >>= λ t.
      scan cleared (λ ns. min_element ns >>= λ n. get_session_info id n db) (m.distinct "session" t)

  unfoldable pub scan_payload_tail_for_sessions : ℤ → Database m → Outcome EventsSessionInfo
  scan_payload_tail_for_sessions id db = get_table_name m id db >>= λ t.
      scan cleared (λ ns. max_element ns >>= λ n. get_session_info id n db) (m.distinct "session" t)

  unfoldable pub scan_payload_range_for_sessions :
      ℤ → ℤ → ℤ → Database m → Outcome (List EventsSessionInfo)
  scan_payload_range_for_sessions id first last db = get_table_name m id db >>= λ t.
      scan []
        (collect (λ n.
          if leb_ℤ first n && leb_ℤ n last
          then (get_session_info id n db >>= λ info. returned (info ∷ []))
          else returned []))
        (m.distinct "session" t)

  unfoldable pub scan_payload_for_sessions : ℤ → Database m → Outcome (List EventsSessionInfo)
  scan_payload_for_sessions id db = get_table_name m id db >>= λ t.
      scan [] (collect (λ n. split_session_by_gaps id n db)) (m.distinct "session" t)

  unfoldable pub get_persistence_set_sessions : ℤ → Database m → Outcome (List EventsSessionInfo)
  get_persistence_set_sessions id db = get_table_name m id db >>= λ t.
      scan []
        (λ ns.
          collect
            (λ n. get_session_steps id n db >>= λ steps.
              session_of_steps n steps >>= λ info. returned (info ∷ []))
            ns
          >>= λ infos. returned (sort_sessions infos))
        (m.distinct "session" t)
