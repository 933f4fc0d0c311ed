-- ===== src/Mongo/Memory.antt =====
-- A driver in memory, which meets the laws: a collection is the list of its documents. It shows that
-- what is assumed of the driver can hold, and runs the tests.
use mathlib.Core.List.{reverse}
use microservice_common.Base.{
  if◌then◌else◌, arith, ℕ, String, ◌≡◌, refl, sym, ap, ◌∙◌, Bool, true, false, not, is_empty,
  append_nil, Option, none, some, List, [], ◌∷◌, ◌++◌, map, filter,
}
use microservice_common.Base.Int.{ℤ, pos, negsuc, ltb_ℤ}
use microservice_common.Base.Counting.{count, SameItems}
use microservice_common.Mongo.Document.{
  Value, Document, int32, int64, boolean, utf8, array, double, field, field_or_null,
}
use microservice_common.Mongo.Query.{satisfies, update_first}
use microservice_common.Mongo.Pipeline.{
  Stage, match_eq, group_count, sort_by, singles_of, Row, row_of, step_document, steps_of,
  sessions_of,
}
use microservice_common.Mongo.Driver.{Driver, Reliable}

abbrev pub as_int32 : Value → ℤ
as_int32 (int32 n) = n
as_int32 _ = pos 0

abbrev pub as_int64 : Value → ℤ
as_int64 (int64 n) = n
as_int64 _ = pos 0

abbrev pub as_bool : Value → Bool
as_bool (boolean b) = b
as_bool _ = false

abbrev pub as_utf8 : Value → String
as_utf8 (utf8 s) = s
as_utf8 _ = ""

abbrev pub as_array : Value → List String
as_array (array ss) = ss
as_array _ = []

abbrev pub as_double : Value → ℕ
as_double (double n) = n
as_double _ = 0

abbrev pub number_of : Value → ℤ
number_of (int32 n) = n
number_of (int64 n) = n
number_of _ = pos 0

abbrev pub put_descending : String → Document → List Document → List Document
put_descending f d [] = d ∷ []
put_descending f d (e ∷ es) =
    if ltb_ℤ (number_of (field_or_null f d)) (number_of (field_or_null f e))
    then e ∷ put_descending f d es
    else d ∷ e ∷ es

abbrev pub sort_descending : String → List Document → List Document
sort_descending f [] = []
sort_descending f (d ∷ ds) = put_descending f d (sort_descending f ds)

put_descending-count :
    (f : String) (d : Document) (es : List Document) (p : Document → Bool)
    → count p (put_descending f d es) ≡ count p (d ∷ es)
put_descending-count f d [] p = refl
put_descending-count f d (e ∷ es) p = ground (arith, put_descending-count f d es p)

pub sort_descending-SameItems :
    (f : String) (ds : List Document) → SameItems (sort_descending f ds) ds
sort_descending-SameItems f [] p = refl
sort_descending-SameItems f (d ∷ ds) p =
    put_descending-count f d (sort_descending f ds) p
    ∙ omega (arith, sort_descending-SameItems f ds p)

abbrev pub read {ℓ} : {A : Type ℓ} → (Value → A) → String → Document → A
read get f d = get (field_or_null f d)

pub read_lem {ℓ} :
    {A : Type ℓ} (get : Value → A) (f : String) (d : Document) (v : Value)
    → field f d ≡ some v
    → read get f d ≡ get v
read_lem get f d v h = rw (h, field_or_null) refl

abbrev pub next_row : Option Row → List Row → List Row
next_row none rows = rows
next_row (some r) rows = r ∷ rows

abbrev pub rows_of : List Document → List Row
rows_of [] = []
rows_of (d ∷ ds) = next_row (row_of d) (rows_of ds)

head_some {ℓ} :
    {A : Type ℓ} (o : Option A) (os : List (Option A)) (a : A) (as_ : List A)
    → o ∷ os ≡ map some (a ∷ as_)
    → (o ≡ some a) × (os ≡ map some as_)
head_some o os a as_ h = (cc, cc)

pub rows_of-map :
    (ds : List Document) (rows : List Row) → map row_of ds ≡ map some rows → rows_of ds ≡ rows
rows_of-map [] [] h = refl
rows_of-map [] (r ∷ rows) h = cc
rows_of-map (d ∷ ds) [] h = cc
rows_of-map (d ∷ ds) (r ∷ rows) h =
    let (e, rest) = head_some (row_of d) (map row_of ds) r rows h in
    ap (λ o. next_row o (rows_of ds)) e ∙ ap (◌∷◌ r) (rows_of-map ds rows rest)

abbrev pub run_steps : ℤ → ℤ → List Document → List Document
run_steps session (pos n) ds = map step_document (steps_of session (rows_of ds))
run_steps session (negsuc n) ds = map step_document (reverse (steps_of session (rows_of ds)))

-- Of the pipelines, those that the program runs.
abbrev pub run_pipeline : List Stage → List Document → List Document
run_pipeline (group_count f c ∷ rest) ds = singles_of f ds
run_pipeline (match_eq f (int32 n) ∷ g ∷ p ∷ sort_by i order ∷ []) ds = run_steps n order ds
run_pipeline _ ds = []

pub distinct_sessions_lem :
    (t : List Document) (rows : List Row) (vs : List Value)
    → map row_of t ≡ map some rows
    → some (map int32 (sessions_of (rows_of t))) ≡ some vs
    → (p : Value → Bool) → count p vs ≡ count p (map int32 (sessions_of rows))
distinct_sessions_lem t rows vs h e p =
    let found : map int32 (sessions_of (rows_of t)) ≡ vs = cc in
    ap (count p) (sym found ∙ ap (λ rs. map int32 (sessions_of rs)) (rows_of-map t rows h))

abbrev pub memory : Driver
memory = record {
  Table = List Document;
  contents = λ t. t;
  insert = λ d t. (t ++ d ∷ [], true);
  insert_bulk = λ ds t. (t ++ ds, not (is_empty ds));
  update = λ upsert q s t. (update_first upsert q s t, true);
  remove = λ q t. (filter (λ d. not (satisfies q d)) t, true);
  find = λ q t. filter (satisfies q) t;
  find_descending = λ f q t. sort_descending f (filter (satisfies q) t);
  aggregate = run_pipeline;
  distinct = λ f t. some (map int32 (sessions_of (rows_of t)));
  read_int32 = read as_int32;
  read_int64 = read as_int64;
  read_bool = read as_bool;
  read_utf8 = read as_utf8;
  read_array = read as_array;
  read_double = read as_double;
  insert_lem = λ d t h. refl;
  insert_bulk_lem = λ ds t h. refl;
  insert_bulk_nil = λ t. ap (λ ds. (ds, false)) (append_nil t);
  update_lem = λ upsert q s t h. refl;
  remove_lem = λ q t h. refl;
  find_lem = λ q t p. refl;
  find_descending_lem = λ f q t. sort_descending-SameItems f (filter (satisfies q) t);
  aggregate-singles = λ f t p. refl;
  aggregate-ascending =
      λ session t rows h. ap (λ rs. map step_document (steps_of session rs)) (rows_of-map t rows h);
  aggregate-descending = λ session t rows h.
      ap (λ rs. map step_document (reverse (steps_of session rs))) (rows_of-map t rows h);
  distinct-sessions = λ t rows vs h e. distinct_sessions_lem t rows vs h e;
  read_int32_lem = λ f d n. read_lem as_int32 f d (int32 n);
  read_int64_lem = λ f d n. read_lem as_int64 f d (int64 n);
  read_int64-int32 = λ f d n. read_lem as_int64 f d (int32 n);
  read_bool_lem = λ f d b. read_lem as_bool f d (boolean b);
  read_utf8_lem = λ f d s. read_lem as_utf8 f d (utf8 s);
  read_array_lem = λ f d ss. read_lem as_array f d (array ss);
  read_double_lem = λ f d n. read_lem as_double f d (double n);
}

abbrev pub memory-Reliable : Reliable memory
memory-Reliable = record {
  inserts = λ d t. refl;
  updates = λ upsert q s t. refl;
  removes = λ q t. refl;
  inserts_bulk = λ d ds t. refl;
}
