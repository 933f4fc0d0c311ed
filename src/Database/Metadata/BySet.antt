-- ===== src/Database/Metadata/BySet.antt =====
-- Reading and deleting the metadata of one persistence set.
use microservice_common.Base.{
  ◌≡◌, refl, ap, sym, ◌∙◌, Bool, true, false, not, List, [], ◌∷◌, ◌++◌, map, filter, any,
  if◌then◌else◌, arith, Bool-cases, inl, inr, append_assoc, append_nil, any_where, any-map,
  any-filter, any-filter_none, not-is_empty-any, any-congr,
}
use microservice_common.Base.Keys.{any-SameItems}
use microservice_common.Base.Int.{ℤ, int_eq}
use microservice_common.Base.Words.{to_int32}
use microservice_common.Common.Outcome.{Outcome, returned, aborted, undefined, ◌>>=◌, asserting}
use microservice_common.Common.Persistence.{
  EPersistenceSourceType, EPersistenceDataType, autonomous_recorder, video_server, dss,
  undefined_source, PersistenceMetadata, PersistenceMetadataRaw, new_metadata,
}
use microservice_common.Mongo.Document.{Document, int32, int64}
use microservice_common.Mongo.Query.{equals}
use microservice_common.Mongo.Encoded.{find-Encodes, remove-Encodes}
use microservice_common.Mongo.Driver.{Driver, Reliable}
use microservice_common.Database.State.{Database}
use microservice_common.Database.Metadata.{
  extend_raw, read_raw_by_set, read_set, get_persistence_set_metadata_by_set,
}
use microservice_common.Database.Metadata.Scan.{
  is_returned, value_or, is_recorder, is_recorder_document, source_of,
}
use microservice_common.Database.Metadata.Contents.{
  StoredSet, set_document, is_storable, is_from_recorder, HoldsMetadata, source_of-set_document,
}
use microservice_common.Database.Metadata.Deleting.{
  holds_a_set, delete_persistence_set_metadata_by_set,
}

-- What is there after some sets were added: these, and nothing of other sources.
record IsRead (raws : List PersistenceMetadataRaw) (out : PersistenceMetadata) : Type 0 where
  raw : out.persistence_from_raw ≡ raws
  video : out.persistence_from_video ≡ []
  from_dss : out.persistence_from_dss ≡ []

-- The set is asked for by the low 32 bits of its number.
abbrev pub is_found_as : ℤ → StoredSet → Bool
is_found_as id s = int_eq (to_int32 id) s.descr.persistence_set_id

same :
    (xs : List PersistenceMetadataRaw) (out : PersistenceMetadata)
    → IsRead xs out
    → IsRead (xs ++ []) out
same xs out h = record { raw = h.raw ∙ sym (append_nil xs); video = h.video; from_dss = h.from_dss }

holds_a_set-raw :
    (xs : List PersistenceMetadataRaw) (out : PersistenceMetadata)
    → IsRead xs out
    → holds_a_set out ≡ any (λ r. true) xs
holds_a_set-raw xs out h = ground (arith, h.raw, h.video, h.from_dss, not-is_empty-any xs)

module _ (m : Driver) (stale : EPersistenceDataType) where
  abbrev raw_by_set : Document → PersistenceMetadataRaw
  raw_by_set d = read_raw_by_set m (value_or undefined_source (source_of m d)) stale d

  extend_raw-IsRead :
      (o : Outcome EPersistenceSourceType) (d : Document) (xs : List PersistenceMetadataRaw)
      (out : PersistenceMetadata)
      → is_returned o ≡ true
      → IsRead xs out
      → (out2 : PersistenceMetadata) × ((rest : PersistenceMetadata → Outcome PersistenceMetadata)
          → (o >>= λ source. rest (extend_raw source (read_raw_by_set m source stale d) out))
            ≡ rest out2)
        × IsRead
            (xs
              ++ (if is_recorder o
                  then read_raw_by_set m (value_or undefined_source o) stale d ∷ []
                  else []))
            out2
  extend_raw-IsRead aborted d xs out ho h = cc
  extend_raw-IsRead undefined d xs out ho h = cc
  extend_raw-IsRead (returned autonomous_recorder) d xs out ho h = (
    extend_raw autonomous_recorder (read_raw_by_set m autonomous_recorder stale d) out,
    λ rest. refl,
    record {
      raw = ap (λ ys. ys ++ read_raw_by_set m autonomous_recorder stale d ∷ []) h.raw;
      video = h.video;
      from_dss = h.from_dss;
    },
  )
  extend_raw-IsRead (returned video_server) d xs out ho h = (out, λ rest. refl, same xs out h)
  extend_raw-IsRead (returned dss) d xs out ho h = (out, λ rest. refl, same xs out h)
  extend_raw-IsRead (returned undefined_source) d xs out ho h = (out, λ rest. refl, same xs out h)

  abbrev recorded_by_set : List Document → List PersistenceMetadataRaw
  recorded_by_set ds = map raw_by_set (filter (is_recorder_document m) ds)

  recorded_by_set_first :
      (d : Document) (ds : List Document)
      → (if is_recorder_document m d then raw_by_set d ∷ [] else []) ++ recorded_by_set ds
        ≡ recorded_by_set (d ∷ ds)
  recorded_by_set_first d ds = ground arith

  read_set-IsRead :
      (ds : List Document) (xs : List PersistenceMetadataRaw) (out : PersistenceMetadata)
      → any (λ d. not (is_returned (source_of m d))) ds ≡ false
      → IsRead xs out
      → (out2 : PersistenceMetadata) × (read_set m stale ds out ≡ returned out2)
        × IsRead (xs ++ recorded_by_set ds) out2
  read_set-IsRead [] xs out r h = (out, refl, same xs out h)
  read_set-IsRead (d ∷ ds) xs out r h =
      let (out2, step, h2) = extend_raw-IsRead (source_of m d) d xs out (ground arith) h in
      let (out3, e, h3) = read_set-IsRead ds _ out2 (ground arith) h2 in
      (
        out3,
        step (read_set m stale ds) ∙ e,
        record {
          raw =
              h3.raw
              ∙ append_assoc xs _ (recorded_by_set ds)
              ∙ ap (λ ys. xs ++ ys) (recorded_by_set_first d ds);
          video = h3.video;
          from_dss = h3.from_dss;
        },
      )

  -- The metadata of a set are read without failing, and are empty exactly if no recorder's set is
  -- stored under the number.
  pub get_persistence_set_metadata_by_set-returned :
      (id : ℤ) (db : Database m) (ms : List StoredSet)
      → HoldsMetadata m db ms
      → (out : PersistenceMetadata) × (get_persistence_set_metadata_by_set m stale id db
          ≡ returned out)
        × (holds_a_set out ≡ any is_from_recorder (filter (is_found_as id) ms))
  unfolding get_persistence_set_metadata_by_set
  get_persistence_set_metadata_by_set-returned id db ms (h, storable) =
      let docs =
        m.find (equals "persistence_id" (int32 (to_int32 id))) db.table_persistence_metadata in
      let found = filter (is_found_as id) ms in
      let same =
        find-Encodes m set_document (equals "persistence_id" (int32 (to_int32 id))) (is_found_as id)
          db.table_persistence_metadata ms (λ s. refl) h in
      let (out, e, c) =
        read_set-IsRead docs [] new_metadata
          (any-SameItems (λ d. not (is_returned (source_of m d))) docs (map set_document found) same
            ∙ any-map set_document _ found
            ∙ any_where is_storable _ found
                (λ s g. ap (λ o. not (is_returned o)) (source_of-set_document m s))
                (any-filter_none (λ s. not (is_storable s)) (is_found_as id) ms storable))
          (record { raw = refl; video = refl; from_dss = refl }) in
      (
        out,
        e,
        holds_a_set-raw _ out c
            ∙ any-map raw_by_set (λ r. true) (filter (is_recorder_document m) docs)
            ∙ any-filter (is_recorder_document m) docs
            ∙ any-SameItems (is_recorder_document m) docs (map set_document found) same
            ∙ any-map set_document (is_recorder_document m) found
            ∙ any-congr _ is_from_recorder found (λ s. ap is_recorder (source_of-set_document m s)),
      )

-- What a deletion does that may abort: it leaves these sets, or it aborts.
abbrev pub Leaves : (m : Driver) → Bool → List StoredSet → Outcome (Database m) → Type 0
Leaves m false ms r = r ≡ aborted
Leaves m true ms r = (after : Database m) × (r ≡ returned after) × HoldsMetadata m after ms

module _ (m : Driver) (ok : Reliable m) where
  -- Over a driver that acknowledges every write, and where the stored sets could be written,
  -- deleting a set's metadata takes out what is stored under its number if a recorder's set is
  -- found under the low 32 bits of the number, and aborts otherwise: the sets of other sources
  -- cannot be deleted.
  pub delete_persistence_set_metadata_by_set-Leaves :
      (stale : EPersistenceDataType) (id : ℤ) (db : Database m) (ms : List StoredSet)
      → HoldsMetadata m db ms
      → Leaves m
          (any is_from_recorder (filter (is_found_as id) ms))
          (filter (λ s. not (int_eq id s.descr.persistence_set_id)) ms)
          (delete_persistence_set_metadata_by_set m stale id db)
  unfolding delete_persistence_set_metadata_by_set
  delete_persistence_set_metadata_by_set-Leaves stale id db ms (h, storable) =
      let (out, e, held) =
        get_persistence_set_metadata_by_set-returned m stale id db ms (h, storable) in
      elim (Bool-cases (any is_from_recorder (filter (is_found_as id) ms))) [
        | inl t ↦
            rw (e, held, t, asserting)
              (
                record db {
                  table_persistence_metadata =
                      (m.remove (equals "persistence_id" (int64 id))
                        db.table_persistence_metadata).0;
                },
                refl,
                (
                  remove-Encodes m set_document (equals "persistence_id" (int64 id))
                      (λ s. int_eq id s.descr.persistence_set_id) _ ms (λ s. refl) (ok.removes _ _)
                      h,
                  any-filter_none (λ s. not (is_storable s)) _ ms storable,
                ),
              )
        | inr f ↦ rw (e, held, f, asserting) refl
      ]
