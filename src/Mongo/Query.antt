-- ===== src/Mongo/Query.antt =====
-- The queries that storage/database_manager_base.cpp hands to the driver, with the documented meaning
-- of the operators that it uses.
use microservice_common.Base.{
  String, Bool, true, false, ◌&&◌, Option, none, some, List, [], ◌∷◌, ◌++◌, any, if◌then◌else◌,
}
use microservice_common.Base.Int.{ℤ, leb_ℤ}
use microservice_common.Mongo.Document.{
  Value, Document, int32, int64, same_value, field, set_fields,
}

pub data Query : Type 0 where
  everything : Query  -- {}
  equals : String → Value → Query  -- {f: v} and {f: {$eq: v}}
  is_in : String → List Value → Query  -- {f: {$in: [...]}}
  at_least : String → ℤ → Query  -- {f: {$gte: n}}
  at_most : String → ℤ → Query  -- {f: {$lte: n}}
  both : Query → Query → Query  -- {$and: [a, b]}

-- Whether a field is there and passes a test.
abbrev pub field_is : (Value → Bool) → Option Value → Bool
field_is p none = false
field_is p (some v) = p v

-- An order between numbers, whatever their width; a value of another type is in none.
abbrev pub number_is : (ℤ → Bool) → Value → Bool
number_is p (int32 n) = p n
number_is p (int64 n) = p n
number_is p _ = false

abbrev pub satisfies : Query → Document → Bool
satisfies everything d = true
satisfies (equals f v) d = field_is (same_value v) (field f d)
satisfies (is_in f vs) d = field_is (λ w. any (λ v. same_value v w) vs) (field f d)
satisfies (at_least f n) d = field_is (number_is (leb_ℤ n)) (field f d)
satisfies (at_most f n) d = field_is (number_is (λ k. leb_ℤ k n)) (field f d)
satisfies (both a b) d = satisfies a d && satisfies b d

-- The document that an upsert starts from: the equality conditions of its query.
abbrev pub equalities : Query → Document
equalities everything = []
equalities (equals f v) = (f, v) ∷ []
equalities (is_in f vs) = []
equalities (at_least f n) = []
equalities (at_most f n) = []
equalities (both a b) = equalities a ++ equalities b

-- An update without MULTI changes the first document that matches; an upsert that matches none
-- adds one.
abbrev pub update_first : Bool → Query → Document → List Document → List Document
update_first true q s [] = set_fields s (equalities q) ∷ []
update_first false q s [] = []
update_first upsert q s (d ∷ ds) =
    if satisfies q d then set_fields s d ∷ ds else d ∷ update_first upsert q s ds
