-- ===== src/Database/Sessions/Bounds.antt =====
-- What getSessionInfo and getSessionSteps say of a session, over the trajectories of the payload.
use mathlib.Core.List.{reverse, reverse-cons, map-append}
use microservice_common.Base.{
  ◌≡◌, refl, ap, sym, ◌∙◌, Bool, true, false, ◌&&◌, List, [], ◌∷◌, ◌++◌, some, map, any, All, arith,
  map-map, map-congr, any-map, Bool-cases, inl, inr,
}
use microservice_common.Base.Int.{ℤ, ◌≤ℤ◌, ◌<ℤ◌, int_eq, int_eq_iff}
use microservice_common.Common.Types.{Trajectory, EventsSessionInfo, ObjectStep, cleared}
use microservice_common.Common.Outcome.{returned}
use microservice_common.Mongo.Document.{Document}
use microservice_common.Mongo.Pipeline.{Row, Step, row_of, steps_of, step_document}
use microservice_common.Mongo.Steps.{
  covers, gives, Above, IsAscending, Covered, Given, steps_of-IsAscending, steps_of-Covered,
  steps_of-Given,
}
use microservice_common.Mongo.Driver.{Driver}
use microservice_common.Database.State.{Database}
use microservice_common.Database.Payload.{trajectory_document}
use microservice_common.Database.Payload.Range.{HoldsPayload, get_payload_table_ref-found}
use microservice_common.Database.Sessions.{
  read_minimum, read_maximum, get_session_info, read_step, get_session_steps,
}

abbrev pub row : Trajectory → Row
row t = record {
  session = t.session_num;
  logic_time = t.logic_time;
  astro_time = t.astro_time_millisec;
}

-- Some trajectory of the session has the logic time and the astronomical time.
abbrev pub has_times : ℤ → ℤ → ℤ → List Trajectory → Bool
has_times n logic astro =
    any (λ t.
      int_eq n t.session_num && int_eq t.logic_time logic && int_eq t.astro_time_millisec astro)

abbrev pub in_session : ℤ → Trajectory → Bool
in_session n t = int_eq n t.session_num

-- The row's step lies between those of the bounds; at a bound, its time is no later than the bound's.
abbrev pub IsWithin : Step → Step → Row → Type 0
IsWithin first last r =
    (first.logic ≤ℤ r.logic_time)
    × (r.logic_time ≤ℤ last.logic)
    × (r.logic_time ≡ first.logic → r.astro_time ≤ℤ first.max_astro)
    × (r.logic_time ≡ last.logic → r.astro_time ≤ℤ last.max_astro)

abbrev pub first_bound : EventsSessionInfo → Step
first_bound info = record { logic = info.min_logic_step; max_astro = info.min_timestamp_millisec }

abbrev pub last_bound : EventsSessionInfo → Step
last_bound info = record { logic = info.max_logic_step; max_astro = info.max_timestamp_millisec }

abbrev pub object_step : Step → ObjectStep
object_step s = record { logic_step = s.logic; timestamp_millisec = s.max_astro }

-- The session's trajectories lie between the bounds, none at a bounding step is later than the
-- bound's time, and each bound is the times of a trajectory.
pub record IsBounded (n : ℤ) (ts : List Trajectory) (info : EventsSessionInfo) : Type 0 where
  pub numbered : info.number ≡ n
  pub within :
      All (λ t. in_session n t ≡ true → IsWithin (first_bound info) (last_bound info) (row t)) ts
  pub first : has_times n info.min_logic_step info.min_timestamp_millisec ts ≡ true
  pub last : has_times n info.max_logic_step info.max_timestamp_millisec ts ≡ true

abbrev last_of : Step → List Step → Step
last_of s [] = s
last_of s (t ∷ ts) = last_of t ts

abbrev info_of : ℤ → Step → List Step → EventsSessionInfo
info_of n s ss = record cleared {
  number = n;
  min_logic_step = s.logic;
  max_logic_step = (last_of s ss).logic;
  min_timestamp_millisec = s.max_astro;
  max_timestamp_millisec = (last_of s ss).max_astro;
}

row_of-trajectory_document :
    (ts : List Trajectory) → map row_of (map trajectory_document ts) ≡ map some (map row ts)
row_of-trajectory_document [] = refl
row_of-trajectory_document (t ∷ ts) = ap (◌∷◌ (some (row t))) (row_of-trajectory_document ts)

last_of-above :
    (k : ℤ) (s : Step) (ss : List Step) → k <ℤ s.logic → Above k ss → k <ℤ (last_of s ss).logic
last_of-above k s [] h a = h
last_of-above k s (t ∷ ts) h a = last_of-above k t ts a.0 a.1

covers-above :
    (k : ℤ) (r : Row) (ss : List Step) → Above k ss → any (covers r) ss ≡ true → k <ℤ r.logic_time
covers-above k r [] a h = cc
covers-above k r (s ∷ ss) a h = ground (arith, covers-above k r ss a.1)

covers-IsWithin :
    (r : Row) (s : Step) (ss : List Step)
    → IsAscending (s ∷ ss)
    → any (covers r) (s ∷ ss) ≡ true
    → IsWithin s (last_of s ss) r
covers-IsWithin r s [] a h =
    let e : r.logic_time ≡ s.logic = (int_eq_iff r.logic_time s.logic).0 (ground arith) in
    let b : r.astro_time ≤ℤ s.max_astro = ground arith in
    (ground (arith), ground (arith), λ _. b, λ _. b)
covers-IsWithin r s (t ∷ ts) a h = elim (Bool-cases (covers r s)) [
  | inl e ↦
      let k = last_of-above s.logic t ts a.0.0 a.0.1 in
      let f : r.logic_time ≡ s.logic = (int_eq_iff r.logic_time s.logic).0 (ground arith) in
      let b : r.astro_time ≤ℤ s.max_astro = ground arith in
      (ground arith, ground arith, λ _. b, λ g. ground arith)
  | inr e ↦
      let later : any (covers r) (t ∷ ts) ≡ true = ground arith in
      let k = covers-above s.logic r (t ∷ ts) a.0 later in
      let w = covers-IsWithin r t ts a.1 later in (ground arith, w.1, λ g. ground arith, w.3)
]

Given-last :
    (n : ℤ) (rows : List Row) (s : Step) (ss : List Step)
    → Given n rows (s ∷ ss)
    → any (gives n (last_of s ss)) rows ≡ true
Given-last n rows s [] h = h.0
Given-last n rows s (t ∷ ts) h = Given-last n rows t ts h.1

All-IsWithin :
    (n : ℤ) (s : Step) (ss : List Step) (ts : List Trajectory)
    → IsAscending (s ∷ ss)
    → Covered n (s ∷ ss) (map row ts)
    → All (λ t. in_session n t ≡ true → IsWithin s (last_of s ss) (row t)) ts
All-IsWithin n s ss [] a c = tt
All-IsWithin n s ss (t ∷ ts) a c =
    (λ e. covers-IsWithin (row t) s ss a (c.0 e), All-IsWithin n s ss ts a c.1)

not-Covered :
    (n : ℤ) (ts : List Trajectory) → Covered n [] (map row ts) → any (in_session n) ts ≡ false
not-Covered n [] c = refl
not-Covered n (t ∷ ts) c = ground (arith, c.0, not-Covered n ts c.1)

module _ (m : Driver) where
  read_minimum_lem :
      (ds : List Document) (s : EventsSessionInfo) (d : Document)
      → read_minimum m (ds ++ d ∷ []) s ≡ record s {
        min_logic_step = m.read_int64 "_id" d;
        min_timestamp_millisec = m.read_int64 "maxAstroTime" d;
      }
  unfolding read_minimum
  read_minimum_lem [] s d = refl
  read_minimum_lem (e ∷ ds) s d = read_minimum_lem ds _ d

  read_maximum_lem :
      (d : Step) (ds : List Step) (s : EventsSessionInfo)
      → read_maximum m (map step_document (d ∷ ds)) s ≡ record s {
        max_logic_step = (last_of d ds).logic;
        max_timestamp_millisec = (last_of d ds).max_astro;
      }
  unfolding read_maximum
  read_maximum_lem d [] s = λ i. record s {
    max_logic_step = m.read_int64_lem "_id" (step_document d) d.logic refl i;
    max_timestamp_millisec = m.read_int64_lem "maxAstroTime" (step_document d) d.max_astro refl i;
  }
  read_maximum_lem d (e ∷ ds) s = read_maximum_lem e ds (record s {
    max_logic_step = m.read_int64 "_id" (step_document d);
    max_timestamp_millisec = m.read_int64 "maxAstroTime" (step_document d);
  })

  read_minimum-reverse :
      (d : Step) (ds : List Step) (s : EventsSessionInfo)
      → read_minimum m (map step_document (reverse (d ∷ ds))) s
        ≡ record s { min_logic_step = d.logic; min_timestamp_millisec = d.max_astro }
  read_minimum-reverse d ds s =
      ap (λ steps. read_minimum m (map step_document steps) s) (reverse-cons d ds)
      ∙ ap (λ docs. read_minimum m docs s) (map-append step_document (reverse ds) (d ∷ []))
      ∙ read_minimum_lem (map step_document (reverse ds)) s (step_document d)
      ∙ (λ i. record s {
        min_logic_step = m.read_int64_lem "_id" (step_document d) d.logic refl i;
        min_timestamp_millisec =
            m.read_int64_lem "maxAstroTime" (step_document d) d.max_astro refl i;
      })

  read-step_document : (s : Step) → read_step m (step_document s) ≡ object_step s
  read-step_document s = λ i. record {
    logic_step = m.read_int64_lem "_id" (step_document s) s.logic refl i;
    timestamp_millisec = m.read_int64_lem "maxAstroTime" (step_document s) s.max_astro refl i;
  }

  pub payload-rows :
      (id : ℤ) (ts : List Trajectory) (db : Database m) (h : HoldsPayload m id db ts)
      → map row_of (m.contents h.table) ≡ map some (map row ts)
  payload-rows id ts db h = ap (map row_of) h.encoded ∙ row_of-trajectory_document ts

  get_session_info-steps :
      (id n : ℤ) (ts : List Trajectory) (db : Database m) (s : Step) (ss : List Step)
      → HoldsPayload m id db ts
      → steps_of n (map row ts) ≡ s ∷ ss
      → get_session_info m id n db ≡ returned (info_of n s ss)
  unfolding get_session_info
  get_session_info-steps id n ts db s ss h e =
      let rows = payload-rows id ts db h in
      let down =
        m.aggregate-descending n h.table (map row ts) rows
        ∙ ap (λ xs. map step_document (reverse xs)) e in
      let up = m.aggregate-ascending n h.table (map row ts) rows ∙ ap (map step_document) e in
      rw
        (
          get_payload_table_ref-found m id db ts h,
          down,
          up,
          read_minimum-reverse s ss (record cleared { number = n }),
        )
        (ap returned (
          read_maximum_lem s ss (record cleared {
            number = n;
            min_logic_step = s.logic;
            min_timestamp_millisec = s.max_astro;
          })))

  info-IsBounded :
      (n : ℤ) (ts : List Trajectory) (s : Step) (ss : List Step)
      → IsAscending (s ∷ ss)
      → Covered n (s ∷ ss) (map row ts)
      → Given n (map row ts) (s ∷ ss)
      → IsBounded n ts (info_of n s ss)
  info-IsBounded n ts s ss a c g = record {
    numbered = refl;
    within = All-IsWithin n s ss ts a c;
    first = sym (any-map row (gives n s) ts) ∙ g.0;
    last = sym (any-map row (gives n (last_of s ss)) ts) ∙ Given-last n (map row ts) s ss g;
  }

  from_steps :
      (id n : ℤ) (ts : List Trajectory) (db : Database m) (steps : List Step)
      → HoldsPayload m id db ts
      → any (in_session n) ts ≡ true
      → steps_of n (map row ts) ≡ steps
      → IsAscending steps
      → Covered n steps (map row ts)
      → Given n (map row ts) steps
      → (info : EventsSessionInfo) × (get_session_info m id n db ≡ returned info)
        × IsBounded n ts info
  from_steps id n ts db [] h some_row e a c g = let no = not-Covered n ts c in cc
  from_steps id n ts db (s ∷ ss) h some_row e a c g =
      (info_of n s ss, get_session_info-steps id n ts db s ss h e, info-IsBounded n ts s ss a c g)

  -- Of a session that has a trajectory, getSessionInfo gives the least and the greatest logic
  -- step, each with the latest time of a trajectory at it, so that the least bound's time is not
  -- the session's earliest where trajectories at the least step differ in time.
  pub get_session_info-IsBounded :
      (id n : ℤ) (ts : List Trajectory) (db : Database m)
      → HoldsPayload m id db ts
      → any (in_session n) ts ≡ true
      → (info : EventsSessionInfo) × (get_session_info m id n db ≡ returned info)
        × IsBounded n ts info
  get_session_info-IsBounded id n ts db h some_row =
      from_steps id n ts db (steps_of n (map row ts)) h some_row refl
        (steps_of-IsAscending n (map row ts)) (steps_of-Covered n (map row ts))
        (steps_of-Given n (map row ts))

  -- getSessionSteps gives logic steps in strictly ascending order: every trajectory of the session
  -- has its step there with a time no earlier than its own, and every step has its logic time and
  -- its time from a trajectory of the session.
  pub get_session_steps-sorted :
      (id n : ℤ) (ts : List Trajectory) (db : Database m)
      → HoldsPayload m id db ts
      → (steps : List Step) × (get_session_steps m id n db ≡ returned (map object_step steps))
        × IsAscending steps
        × Covered n steps (map row ts)
        × Given n (map row ts) steps
  unfolding get_session_steps
  get_session_steps-sorted id n ts db h =
      let steps = steps_of n (map row ts) in
      (
        steps,
        rw
            (
              get_payload_table_ref-found m id db ts h,
              m.aggregate-ascending n h.table (map row ts) (payload-rows id ts db h),
            )
            (ap returned (
              map-map (read_step m) step_document steps
              ∙ map-congr _ object_step steps read-step_document)),
        steps_of-IsAscending n (map row ts),
        steps_of-Covered n (map row ts),
        steps_of-Given n (map row ts),
      )
