-- ===== src/Mongo/Pipeline.antt =====
-- The aggregation pipelines of storage/database_manager_base.cpp, and what each yields as documented.
use microservice_common.Base.{
  any, if◌then◌else◌, Option, none, some, String, Bool, List, [], ◌∷◌, map, ◌==◌, filter,
}
use microservice_common.Base.Int.{ℤ, pos, int_eq, ltb_ℤ}
use microservice_common.Base.Counting.{count}
use microservice_common.Mongo.Document.{
  Value, Document, int32, int64, field, same_value, field_or_null,
}

pub data Stage : Type 0 where
  match_eq : String → Value → Stage  -- {$match: {f: {$eq: v}}}
  group_count : String → String → Stage  -- {$group: {_id: $f, c: {$sum: 1}}}
  group_max : String → String → String → Stage  -- {$group: {_id: $f, m: {$max: $g}}}
  project : List String → Stage  -- {$project: {f: 1, ...}}
  sort_by : String → ℤ → Stage  -- {$sort: {f: n}}

-- {$group: {_id: $f, count: {$sum: 1}}}, {$match: {count: {$eq: 1}}}: one document for each value
-- that one document only has.
abbrev pub singles_pipeline : String → List Stage
singles_pipeline f = group_count f "count" ∷ match_eq "count" (int32 (pos 1)) ∷ []

abbrev pub is_single : String → List Document → Document → Bool
is_single f ds d = count (λ e. same_value (field_or_null f d) (field_or_null f e)) ds == 1

abbrev pub single_document : String → Document → Document
single_document f d = ("_id", field_or_null f d) ∷ ("count", int32 (pos 1)) ∷ []

abbrev pub singles_of : String → List Document → List Document
singles_of f ds = map (single_document f) (filter (is_single f ds) ds)

-- The numbers that the payload pipelines read off a document.
pub record Row : Type 0 where
  pub session : ℤ
  pub logic_time : ℤ
  pub astro_time : ℤ

abbrev read_row : Option Value → Option Value → Option Value → Option Row
read_row (some (int32 n)) (some (int64 l)) (some (int64 a)) =
    some (record { session = n; logic_time = l; astro_time = a })
read_row _ _ _ = none

abbrev pub row_of : Document → Option Row
row_of d = read_row (field "session" d) (field "logic_time" d) (field "astro_time" d)

-- {$match: {session: {$eq: n}}}, {$group: {_id: $logic_time, maxAstroTime: {$max: $astro_time}}},
-- {$project: {_id: 1, maxAstroTime: 1}}, {$sort: {_id: order}}.
abbrev pub steps_pipeline : ℤ → ℤ → List Stage
steps_pipeline session order =
    match_eq "session" (int32 session)
    ∷ group_max "logic_time" "maxAstroTime" "astro_time"
    ∷ project ("_id" ∷ "maxAstroTime" ∷ [])
    ∷ sort_by "_id" order
    ∷ []

-- A logic step with its greatest astronomical time.
pub record Step : Type 0 where
  pub logic : ℤ
  pub max_astro : ℤ

abbrev pub max_ℤ : ℤ → ℤ → ℤ
max_ℤ a b = if ltb_ℤ a b then b else a

-- A row joins the group of its logic time; the groups stand in ascending order.
unfoldable pub add_row : Row → List Step → List Step
add_row r [] = record { logic = r.logic_time; max_astro = r.astro_time } ∷ []
add_row r (s ∷ ss) =
    if ltb_ℤ r.logic_time s.logic
    then record { logic = r.logic_time; max_astro = r.astro_time } ∷ s ∷ ss
    else (if int_eq r.logic_time s.logic
        then record s { max_astro = max_ℤ s.max_astro r.astro_time } ∷ ss
        else s ∷ add_row r ss)

unfoldable pub steps_of : ℤ → List Row → List Step
unfolding add_row
steps_of session [] = []
steps_of session (r ∷ rs) =
    if int_eq session r.session then add_row r (steps_of session rs) else steps_of session rs

abbrev pub step_document : Step → Document
step_document s = ("_id", int64 s.logic) ∷ ("maxAstroTime", int64 s.max_astro) ∷ []

-- The sessions that some row has, each once.
unfoldable pub sessions_of : List Row → List ℤ
sessions_of [] = []
sessions_of (r ∷ rs) =
    let rest = sessions_of rs in if any (int_eq r.session) rest then rest else r.session ∷ rest
