-- ===== src/Database/Metadata/Context.antt =====
-- Deleting what belongs to a context: its metadata and the descriptions of its sets' sessions.
use microservice_common.Base.{
  ℕ, ◌≡◌, refl, ap, sym, ◌∙◌, ◌^◌, Bool, true, not, ◌&&◌, ◌||◌, List, [], ◌∷◌, ◌++◌, map, filter,
  any, ltb, ◌==◌, arith, All, append_nil, any-map, any-filter_none, filter_where, filter-congr,
  filter-filter,
}
use microservice_common.Base.Keys.{any-SameItems, filter-all}
use microservice_common.Base.Counting.{SameItems}
use microservice_common.Base.Int.{ℤ, int_eq}
use microservice_common.Base.Words.{signed32}
use microservice_common.Common.Outcome.{returned}
use microservice_common.Common.Persistence.{PersistenceMetadata, PersistenceMetadataRaw}
use microservice_common.Mongo.Document.{int32}
use microservice_common.Mongo.Query.{equals}
use microservice_common.Mongo.Encoded.{remove-Encodes}
use microservice_common.Mongo.Driver.{Driver, Reliable}
use microservice_common.Database.State.{Database}
use microservice_common.Database.Descriptions.{all_session_num}
use microservice_common.Database.Descriptions.Contents.{
  Description, encode, in_set, has_number, HoldsDescriptions, delete_session_description-Holds,
}
use microservice_common.Database.Metadata.Scan.{raw_sets, IsOnlyRaw}
use microservice_common.Database.Metadata.Contents.{
  StoredSet, set_document, is_storable, is_from_recorder, as_raw, in_context, HoldsMetadata,
  signed32_eq, get_persistence_set_metadata_by_context-SameItems,
}
use microservice_common.Database.Metadata.Deleting.{
  all_sets_of, delete_descriptions, delete_session_description_by_context,
  delete_persistence_set_metadata_by_context,
}

-- Whether a recorder's set of the context has the number.
abbrev pub has_set : ℕ → List StoredSet → ℤ → Bool
has_set ctx ms id =
    any (λ s. int_eq s.descr.persistence_set_id id)
      (filter is_from_recorder (filter (in_context ctx) ms))

abbrev raw_id : PersistenceMetadataRaw → ℤ
raw_id r = r.descr.persistence_set_id

map-append_raws :
    (xs ys : List PersistenceMetadataRaw) → map raw_id (xs ++ ys) ≡ map raw_id xs ++ map raw_id ys
map-append_raws [] ys = refl
map-append_raws (x ∷ xs) ys = ap (◌∷◌ (raw_id x)) (map-append_raws xs ys)

all_sets_of-raw_sets :
    (out : List PersistenceMetadata)
    → All IsOnlyRaw out
    → all_sets_of out ≡ map raw_id (raw_sets out)
all_sets_of-raw_sets [] h = refl
all_sets_of-raw_sets (g ∷ gs) h =
    ap (λ xs. xs ++ all_sets_of gs)
      (ap
          (λ vs.
            map (λ x. x.descr.persistence_set_id) g.persistence_from_dss
            ++ map raw_id g.persistence_from_raw
            ++ map (λ x. x.descr.persistence_set_id) vs)
          h.0.0
        ∙ ap
            (λ ds.
              map (λ x. x.descr.persistence_set_id) ds ++ map raw_id g.persistence_from_raw ++ [])
            h.0.1
        ∙ append_nil (map raw_id g.persistence_from_raw))
    ∙ ap (λ xs. map raw_id g.persistence_from_raw ++ xs) (all_sets_of-raw_sets gs h.1)
    ∙ sym (map-append_raws g.persistence_from_raw (raw_sets gs))

-- The numbers that the loops go through are those of the context's sets.
pub any-all_sets_of :
    (p : ℤ → Bool) (ctx : ℕ) (ms : List StoredSet) (out : List PersistenceMetadata)
    → SameItems (raw_sets out) (map as_raw (filter is_from_recorder (filter (in_context ctx) ms)))
    → All IsOnlyRaw out
    → any p (all_sets_of out)
      ≡ any
          (λ s. p s.descr.persistence_set_id)
          (filter is_from_recorder (filter (in_context ctx) ms))
any-all_sets_of p ctx ms out same only =
    ap (any p) (all_sets_of-raw_sets out only)
    ∙ any-map raw_id p (raw_sets out)
    ∙ any-SameItems (λ r. p (raw_id r)) (raw_sets out) _ same
    ∙ any-map as_raw (λ r. p (raw_id r)) (filter is_from_recorder (filter (in_context ctx) ms))

module _ (m : Driver) (ok : Reliable m) where
  pub delete_persistence_set_metadata_by_context-Holds :
      (ctx : ℕ) (db : Database m) (ms : List StoredSet)
      → ltb ctx (2 ^ 32) ≡ true
      → HoldsMetadata m db ms
      → (after : Database m) × (delete_persistence_set_metadata_by_context m ctx db
          ≡ returned after)
        × HoldsMetadata m after (filter (λ s. not (ctx == s.descr.context_id)) ms)
  unfolding delete_persistence_set_metadata_by_context
  delete_persistence_set_metadata_by_context-Holds ctx db ms small (h, storable) =
      let (out, e, raws, only, empty) =
        get_persistence_set_metadata_by_context-SameItems m ctx db ms small (h, storable) in
      let q = equals "ctx_id" (int32 (signed32 ctx)) in
      (
        record db { table_persistence_metadata = (m.remove q db.table_persistence_metadata).0 },
        rw e refl,
        (
          remove-Encodes m set_document q (λ s. int_eq (signed32 ctx) (signed32 s.descr.context_id))
                _ ms (λ s. refl) (ok.removes _ _) h
              ∙ ap (map set_document) (
                  filter_where is_storable _ (λ s. not (ctx == s.descr.context_id)) ms
                    (λ s good. ap not (signed32_eq ctx s.descr.context_id small (ground arith)))
                    storable),
          any-filter_none (λ s. not (is_storable s)) _ ms storable,
        ),
      )

  delete_descriptions-Holds :
      (ids : List ℤ) (db : Database m) (ds : List Description)
      → HoldsDescriptions m db ds
      → HoldsDescriptions m
          (delete_descriptions m ids db)
          (filter (λ d. not (any (λ id. in_set id d) ids)) ds)
  delete_descriptions-Holds [] db ds h = h ∙ ap (map encode) (sym (filter-all ds))
  delete_descriptions-Holds (id ∷ ids) db ds h =
      delete_descriptions-Holds ids _ _
        (delete_session_description-Holds m ok id all_session_num db ds h)
      ∙ ap (map encode) (
          filter-filter (λ d. not (any (λ i. in_set i d) ids))
            (λ d. not (in_set id d && (true || has_number all_session_num d))) ds
          ∙ filter-congr
              (λ d.
                not (in_set id d && (true || has_number all_session_num d))
                && not (any (λ i. in_set i d) ids))
              (λ d. not (any (λ i. in_set i d) (id ∷ ids))) ds (λ d. ground arith))

  -- Over a driver that acknowledges every write, and where the stored sets could be written,
  -- deleting the descriptions of a context takes out those of its recorder's sets, whatever their
  -- session, and leaves the others.
  pub delete_session_description_by_context-Holds :
      (ctx : ℕ) (db : Database m) (ms : List StoredSet) (ds : List Description)
      → ltb ctx (2 ^ 32) ≡ true
      → HoldsMetadata m db ms
      → HoldsDescriptions m db ds
      → (after : Database m) × (delete_session_description_by_context m ctx db ≡ returned after)
        × HoldsDescriptions m after (filter (λ d. not (has_set ctx ms d.pers_id)) ds)
  unfolding delete_session_description_by_context
  delete_session_description_by_context-Holds ctx db ms ds small h hd =
      let (out, e, raws, only, empty) =
        get_persistence_set_metadata_by_context-SameItems m ctx db ms small h in
      (
        delete_descriptions m (all_sets_of out) db,
        rw e refl,
        delete_descriptions-Holds (all_sets_of out) db ds hd
            ∙ ap (map encode) (
                filter-congr _ (λ d. not (has_set ctx ms d.pers_id)) ds
                  (λ d. ap not (any-all_sets_of (λ id. in_set id d) ctx ms out raws only))),
      )
