-- ===== src/Mongo/Driver.antt =====
-- The driver (mongo-c-driver and libbson) as a parameter. `contents` lists the documents of a
-- collection as the application wrote them (the server's own `_id` left out); no operation returns
-- it. The laws are the documented behaviour of acknowledged calls; of a call that
-- reports a failure nothing is said, but that an empty bulk operation is one.
use mathlib.Core.List.{reverse}
use microservice_common.Base.{
  ℕ, String, ◌≡◌, Bool, true, false, not, Option, some, List, [], ◌∷◌, ◌++◌, map, filter,
}
use microservice_common.Base.Int.{ℤ, pos, negsuc}
use microservice_common.Base.Counting.{SameItems}
use microservice_common.Mongo.Document.{
  Value, Document, int32, int64, boolean, utf8, array, double, field,
}
use microservice_common.Mongo.Query.{Query, satisfies, update_first}
use microservice_common.Mongo.Pipeline.{
  Stage, Row, singles_pipeline, singles_of, row_of, steps_pipeline, steps_of, sessions_of,
  step_document,
}

pub record Driver : Type 1 where
  pub Table : Type 0
  pub contents : Table → List Document
  -- mongoc_collection_insert, _update (with or without UPSERT), _remove; the Bool is their result.
  pub insert : Document → Table → Table × Bool
  -- A bulk operation of inserts, executed.
  pub insert_bulk : List Document → Table → Table × Bool
  pub update : Bool → Query → Document → Table → Table × Bool
  pub remove : Query → Table → Table × Bool
  -- mongoc_collection_find and mongoc_collection_aggregate, with the cursor read to its end.
  pub find : Query → Table → List Document
  -- The same with {$orderby: {f: -1}}.
  pub find_descending : String → Query → Table → List Document
  pub aggregate : List Stage → Table → List Document
  -- The command `distinct` on a collection; `none` if it fails.
  pub distinct : String → Table → Option (List Value)
  -- bson_iter_init_find followed by bson_iter_int32, _int64, _bool, _utf8, or by a walk of an array.
  pub read_int32 : String → Document → ℤ
  pub read_int64 : String → Document → ℤ
  pub read_bool : String → Document → Bool
  pub read_utf8 : String → Document → String
  pub read_array : String → Document → List String
  pub read_double : String → Document → ℕ
  pub insert_lem :
      (d : Document) (t : Table)
      → (insert d t).1 ≡ true
      → contents (insert d t).0 ≡ contents t ++ d ∷ []
  pub insert_bulk_lem :
      (ds : List Document) (t : Table)
      → (insert_bulk ds t).1 ≡ true
      → contents (insert_bulk ds t).0 ≡ contents t ++ ds
  -- A bulk operation without operations is an error, before anything is sent.
  pub insert_bulk_nil : (t : Table) → insert_bulk [] t ≡ (t, false)
  pub update_lem :
      (upsert : Bool) (q : Query) (s : Document) (t : Table)
      → (update upsert q s t).1 ≡ true
      → contents (update upsert q s t).0 ≡ update_first upsert q s (contents t)
  pub remove_lem :
      (q : Query) (t : Table)
      → (remove q t).1 ≡ true
      → contents (remove q t).0 ≡ filter (λ d. not (satisfies q d)) (contents t)
  -- A cursor yields the matching documents, in an order that is not promised.
  pub find_lem : (q : Query) (t : Table) → SameItems (find q t) (filter (satisfies q) (contents t))
  pub find_descending_lem :
      (f : String) (q : Query) (t : Table)
      → SameItems (find_descending f q t) (filter (satisfies q) (contents t))
  pub aggregate-singles :
      (f : String) (t : Table)
      → SameItems (aggregate (singles_pipeline f) t) (singles_of f (contents t))
  -- Where every document has its numbers, the steps come in the order asked for.
  pub aggregate-ascending :
      (session : ℤ) (t : Table) (rows : List Row)
      → map row_of (contents t) ≡ map some rows
      → aggregate (steps_pipeline session (pos 1)) t ≡ map step_document (steps_of session rows)
  pub aggregate-descending :
      (session : ℤ) (t : Table) (rows : List Row)
      → map row_of (contents t) ≡ map some rows
      → aggregate (steps_pipeline session (negsuc 0)) t
        ≡ map step_document (reverse (steps_of session rows))
  -- `distinct` yields each value once, in an order that is not promised.
  pub distinct-sessions :
      (t : Table) (rows : List Row) (vs : List Value)
      → map row_of (contents t) ≡ map some rows
      → distinct "session" t ≡ some vs
      → SameItems vs (map int32 (sessions_of rows))
  pub read_int32_lem :
      (f : String) (d : Document) (n : ℤ) → field f d ≡ some (int32 n) → read_int32 f d ≡ n
  pub read_int64_lem :
      (f : String) (d : Document) (n : ℤ) → field f d ≡ some (int64 n) → read_int64 f d ≡ n
  -- Of a field of another type bson_iter_int64 gives 0.
  pub read_int64-int32 :
      (f : String) (d : Document) (n : ℤ) → field f d ≡ some (int32 n) → read_int64 f d ≡ pos 0
  pub read_bool_lem :
      (f : String) (d : Document) (b : Bool) → field f d ≡ some (boolean b) → read_bool f d ≡ b
  pub read_utf8_lem :
      (f : String) (d : Document) (s : String) → field f d ≡ some (utf8 s) → read_utf8 f d ≡ s
  pub read_array_lem :
      (f : String) (d : Document) (ss : List String)
      → field f d ≡ some (array ss)
      → read_array f d ≡ ss
  pub read_double_lem :
      (f : String) (d : Document) (n : ℕ) → field f d ≡ some (double n) → read_double f d ≡ n

-- The server can be reached: every write is acknowledged.
pub record Reliable (m : Driver) : Type 0 where
  pub inserts : (d : Document) (t : m.Table) → (m.insert d t).1 ≡ true
  pub updates :
      (upsert : Bool) (q : Query) (s : Document) (t : m.Table) → (m.update upsert q s t).1 ≡ true
  pub removes : (q : Query) (t : m.Table) → (m.remove q t).1 ≡ true
  pub inserts_bulk :
      (d : Document) (ds : List Document) (t : m.Table) → (m.insert_bulk (d ∷ ds) t).1 ≡ true
