-- ===== src/Mongo/Document.antt =====
-- BSON documents as storage/database_manager_base.cpp builds them with BCON_NEW: fields in order.
use microservice_common.Base.{
  texts_eq, ℕ, ◌==◌, String, Bool, true, false, Option, none, some, List, [], ◌∷◌, str_eq,
  if◌then◌else◌,
}
use microservice_common.Base.Int.{ℤ, int_eq}

-- The value types that the program writes. `null` is what grouping yields for a missing field.
pub data Value : Type 0 where
  null : Value
  int32 : ℤ → Value
  int64 : ℤ → Value
  boolean : Bool → Value
  utf8 : String → Value
  array : List String → Value
  double : ℕ → Value  -- the 64 bits of the number

abbrev pub Document : Type 0
Document = List (String × Value)

abbrev bool_eq : Bool → Bool → Bool
bool_eq true b = b
bool_eq false true = false
bool_eq false false = true

-- Equality of values in a query: integers are compared as numbers, whatever their width.
abbrev pub same_value : Value → Value → Bool
same_value null null = true
same_value (int32 a) (int32 b) = int_eq a b
same_value (int32 a) (int64 b) = int_eq a b
same_value (int64 a) (int32 b) = int_eq a b
same_value (int64 a) (int64 b) = int_eq a b
same_value (boolean a) (boolean b) = bool_eq a b
same_value (utf8 a) (utf8 b) = str_eq a b
same_value (array a) (array b) = texts_eq a b
same_value (double a) (double b) = a == b
same_value _ _ = false

abbrev pub field : String → Document → Option Value
field k [] = none
field k ((j, v) ∷ d) = if str_eq j k then some v else field k d

abbrev pub field_or_null : String → Document → Value
field_or_null k d = elim (field k d) [ none ↦ null | some v ↦ v ]

abbrev pub set_field : String → Value → Document → Document
set_field k v [] = (k, v) ∷ []
set_field k v ((j, w) ∷ d) = if str_eq j k then (k, v) ∷ d else (j, w) ∷ set_field k v d

-- `$set`: each field is replaced where it stands, or added at the end.
abbrev pub set_fields : Document → Document → Document
set_fields [] d = d
set_fields ((k, v) ∷ s) d = set_fields s (set_field k v d)
