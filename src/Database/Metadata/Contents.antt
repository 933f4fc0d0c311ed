-- ===== src/Database/Metadata/Contents.antt =====
-- What the operations on metadata do, in terms of the persistence sets that the collection holds.
use microservice_common.Base.{
  ℕ, ◌≡◌, refl, ap, ◌∙◌, ◌^◌, String, Bool, true, false, not, ◌&&◌, List, [], map, filter, any,
  is_empty, ltb, ◌==◌, if◌then◌else◌, arith, Bool-cases, inl, inr, All, not-is_empty-any,
  any-filter_none, any_where, filter_where, filter-congr, map_where, any-map, filter-map, map-map,
}
use microservice_common.Base.Keys.{any-SameItems}
use microservice_common.Base.Counting.{count, SameItems, SameItems-map, SameItems-filter}
use microservice_common.Base.Int.{pos, int_eq}
use microservice_common.Base.Words.{to_uint32, signed32, to_uint32-signed32}
use microservice_common.Common.Outcome.{returned}
use microservice_common.Common.Persistence.{
  EPersistenceDataType, trajectory, weather, undefined_data, undefined_source, PersistenceMetadata,
  PersistenceMetadataDescr, PersistenceMetadataRaw, convert_persistence_type_from_str,
  convert_persistence_type_from_str-convert_persistence_type_to_str, convert_data_type_from_str,
}
use microservice_common.Mongo.Document.{Document, int32}
use microservice_common.Mongo.Query.{everything, equals}
use microservice_common.Mongo.Encoded.{Encodes, find-Encodes}
use microservice_common.Mongo.Driver.{Driver}
use microservice_common.Database.State.{Database}
use microservice_common.Database.Metadata.{
  all_context_id, find_context, get_persistence_set_metadata_by_context,
}
use microservice_common.Database.Metadata.Writing.{metadata_document, is_valid_global}
use microservice_common.Database.Metadata.Scan.{
  raw_sets, IsOnlyRaw, value_or, is_recorder, is_readable, is_recorder_document, raw_of, recorded,
  read_contexts-recorded, source_of, kind_of,
}

-- A persistence set as it is stored.
pub record StoredSet : Type 0 where
  pub table_name : String
  pub descr : PersistenceMetadataDescr

abbrev pub data_text : EPersistenceDataType → String
data_text trajectory = "traj"
data_text weather = "weather"
data_text undefined_data = ""

abbrev pub is_known : EPersistenceDataType → Bool
is_known undefined_data = false
is_known _ = true

abbrev pub set_document : StoredSet → Document
set_document s =
    metadata_document s.descr.persistence_set_id s.table_name (data_text s.descr.data_type) s.descr

-- What writePersistenceMetadataGlobal lets through, of types that hold their numbers.
abbrev pub is_storable : StoredSet → Bool
is_storable s =
    is_valid_global s.descr.persistence_set_id s.descr
    && is_known s.descr.data_type
    && ltb s.descr.context_id (2 ^ 32)
    && ltb s.descr.mission_id (2 ^ 32)

abbrev pub is_from_recorder : StoredSet → Bool
is_from_recorder s = is_recorder (returned s.descr.source_type)

abbrev pub as_raw : StoredSet → PersistenceMetadataRaw
as_raw s = record { descr = s.descr; a = pos 0 }

-- The sets that a context stands for: ALL_CONTEXT_ID stands for every one.
abbrev pub in_context : ℕ → StoredSet → Bool
in_context ctx s = if ctx == all_context_id then true else ctx == s.descr.context_id

convert_data_type_from_str-data_text :
    (k : EPersistenceDataType)
    → is_known k ≡ true
    → convert_data_type_from_str (data_text k) ≡ returned k
unfolding convert_data_type_from_str
convert_data_type_from_str-data_text trajectory h = refl
convert_data_type_from_str-data_text weather h = refl
convert_data_type_from_str-data_text undefined_data h = cc

pub signed32_eq :
    (a b : ℕ)
    → ltb a (2 ^ 32) ≡ true
    → ltb b (2 ^ 32) ≡ true
    → int_eq (signed32 a) (signed32 b) ≡ (a == b)
signed32_eq a b ha hb = ground arith

module _ (m : Driver) where
  abbrev pub HoldsMetadata : Database m → List StoredSet → Type 0
  HoldsMetadata db ms =
      Encodes m set_document db.table_persistence_metadata ms
      × (any (λ s. not (is_storable s)) ms ≡ false)

  pub source_of-set_document :
      (s : StoredSet) → source_of m (set_document s) ≡ returned s.descr.source_type
  source_of-set_document s =
      ap convert_persistence_type_from_str (m.read_utf8_lem "source_type" (set_document s) _ refl)
      ∙ convert_persistence_type_from_str-convert_persistence_type_to_str s.descr.source_type

  kind_of-set_document :
      (s : StoredSet)
      → is_storable s ≡ true
      → kind_of m (set_document s) ≡ returned s.descr.data_type
  kind_of-set_document s h =
      ap convert_data_type_from_str (m.read_utf8_lem "data_type" (set_document s) _ refl)
      ∙ convert_data_type_from_str-data_text s.descr.data_type (ground arith)

  read_word-set_document :
      (f : String) (n : ℕ) (s : StoredSet)
      → m.read_int32 f (set_document s) ≡ signed32 n
      → ltb n (2 ^ 32) ≡ true
      → to_uint32 (m.read_int32 f (set_document s)) ≡ n
  read_word-set_document f n s e h = ap to_uint32 e ∙ to_uint32-signed32 n (ground arith)

  raw_of-set_document :
      (s : StoredSet) → is_storable s ≡ true → raw_of m (set_document s) ≡ as_raw s
  raw_of-set_document s h = λ i. record {
    descr = record {
      persistence_set_id =
          m.read_int64_lem "persistence_id" (set_document s) s.descr.persistence_set_id refl i;
      context_id =
          read_word-set_document "ctx_id" s.descr.context_id s
            (m.read_int32_lem "ctx_id" (set_document s) _ refl) (ground arith) i;
      mission_id =
          read_word-set_document "mission_id" s.descr.mission_id s
            (m.read_int32_lem "mission_id" (set_document s) _ refl) (ground arith) i;
      time_step_interval_millisec =
          m.read_int64_lem "update_step_millisec" (set_document s)
            s.descr.time_step_interval_millisec refl i;
      last_recorded_session =
          m.read_int32_lem "last_session_id" (set_document s) s.descr.last_recorded_session refl i;
      source_type = ap (value_or undefined_source) (source_of-set_document s) i;
      data_type = ap (value_or undefined_data) (kind_of-set_document s h) i;
    };
    a = pos 0;
  }

  is_readable-set_document :
      (s : StoredSet) → is_storable s ≡ true → is_readable m (set_document s) ≡ true
  is_readable-set_document s h =
      rw
        (
          source_of-set_document s,
          kind_of-set_document s h,
          read_word-set_document "ctx_id" s.descr.context_id s
              (m.read_int32_lem "ctx_id" (set_document s) _ refl) (ground arith),
        )
        (ground arith)

  find_context-SameItems :
      (ctx : ℕ) (t : m.Table) (ms : List StoredSet)
      → ltb ctx (2 ^ 32) ≡ true
      → Encodes m set_document t ms
      → any (λ s. not (is_storable s)) ms ≡ false
      → SameItems (find_context m ctx t) (map set_document (filter (in_context ctx) ms))
  find_context-SameItems ctx t ms small h storable = elim (Bool-cases (ctx == all_context_id)) [
    | inl e ↦ simp e (λ p.
        m.find_descending_lem "ctx_id" everything t p
        ∙ ap (λ ds. count p (filter (λ d. true) ds)) h
        ∙ ap (count p) (filter-map set_document (λ d. true) ms)
        ∙ ap (λ ys. count p (map set_document ys))
            (filter-congr (λ s. true) (in_context ctx) ms (λ s. ground arith)))
    | inr e ↦ simp e (λ p.
        find-Encodes m set_document (equals "ctx_id" (int32 (signed32 ctx)))
          (λ s. int_eq (signed32 ctx) (signed32 s.descr.context_id)) t ms (λ s. refl) h p
        ∙ ap (λ ys. count p (map set_document ys))
            (filter_where is_storable _ (in_context ctx) ms
              (λ s good. ground (arith, signed32_eq ctx s.descr.context_id small (ground arith)))
              storable))
  ]

  recorded-set_document :
      (ms : List StoredSet)
      → any (λ s. not (is_storable s)) ms ≡ false
      → recorded m (map set_document ms) ≡ map as_raw (filter is_from_recorder ms)
  recorded-set_document ms h =
      ap (map (raw_of m)) (
        filter-map set_document (is_recorder_document m) ms
        ∙ ap (map set_document) (
            filter_where is_storable _ is_from_recorder ms
              (λ s good. ap is_recorder (source_of-set_document s)) h))
      ∙ map-map (raw_of m) set_document (filter is_from_recorder ms)
      ∙ map_where is_storable _ as_raw (filter is_from_recorder ms) raw_of-set_document
          (any-filter_none (λ s. not (is_storable s)) is_from_recorder ms h)

  is_empty-SameItems :
      (ds : List Document) (ms : List StoredSet)
      → SameItems ds (map set_document ms)
      → is_empty ds ≡ is_empty ms
  is_empty-SameItems ds ms h = ground (
    arith,
    not-is_empty-any ds,
    any-SameItems (λ d. true) ds (map set_document ms) h,
    any-map set_document (λ d. true) ms,
    not-is_empty-any ms,
  )

  -- Where the stored sets could be written, a context's metadata, or those of all contexts, are
  -- read without failing: they are, in some order, those of its sets that a recorder made, and no
  -- other; there is an entry exactly if the context has a set.
  pub get_persistence_set_metadata_by_context-SameItems :
      (ctx : ℕ) (db : Database m) (ms : List StoredSet)
      → ltb ctx (2 ^ 32) ≡ true
      → HoldsMetadata db ms
      → (out : List PersistenceMetadata) × (get_persistence_set_metadata_by_context m ctx db
          ≡ returned out)
        × SameItems
            (raw_sets out)
            (map as_raw (filter is_from_recorder (filter (in_context ctx) ms)))
        × All IsOnlyRaw out
        × (is_empty out ≡ is_empty (filter (in_context ctx) ms))
  unfolding get_persistence_set_metadata_by_context
  get_persistence_set_metadata_by_context-SameItems ctx db ms small (h, storable) =
      let docs = find_context m ctx db.table_persistence_metadata in
      let asked = filter (in_context ctx) ms in
      let same = find_context-SameItems ctx db.table_persistence_metadata ms small h storable in
      let good = any-filter_none (λ s. not (is_storable s)) (in_context ctx) ms storable in
      let (out, e, raws, only, empty) =
        read_contexts-recorded m docs 0 []
          (any-SameItems (λ d. not (is_readable m d)) docs (map set_document asked) same
            ∙ any-map set_document (λ d. not (is_readable m d)) asked
            ∙ any_where is_storable _ asked (λ s g. ap not (is_readable-set_document s g)) good)
          tt (λ z. refl) in
      (
        out,
        e,
        λ p.
            ap (count p) raws
            ∙ SameItems-map (raw_of m) _ _
                (SameItems-filter (is_recorder_document m) docs (map set_document asked) same) p
            ∙ ap (count p) (recorded-set_document asked good),
        only,
        empty ∙ is_empty-SameItems docs asked same,
      )
