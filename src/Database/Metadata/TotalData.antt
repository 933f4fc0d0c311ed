-- ===== src/Database/Metadata/TotalData.antt =====
-- Deleting the payload of a context's sets.
use microservice_common.Base.{
  ℕ, ◌≡◌, refl, ap, sym, ◌∙◌, ◌^◌, true, false, List, [], ◌∷◌, any, ltb, arith, Bool-cases, inl,
  inr, subst,
}
use microservice_common.Base.Int.{ℤ, int_eq, int_eq_iff, int_eq_refl}
use microservice_common.Common.Types.{Filter, Trajectory}
use microservice_common.Common.Outcome.{returned, ◌>>=◌}
use microservice_common.Mongo.Query.{everything}
use microservice_common.Mongo.Encoded.{remove_everything-Encodes}
use microservice_common.Mongo.Driver.{Driver, Reliable}
use microservice_common.Database.State.{Database, find_by_id}
use microservice_common.Database.Payload.{
  trajectory_document, put_by_id, with_payload, delete_data_range,
}
use microservice_common.Database.Payload.Range.{
  find_by_id-put_by_id, HoldsPayload, get_payload_table_ref-found,
}
use microservice_common.Database.Metadata.Contents.{
  StoredSet, HoldsMetadata, get_persistence_set_metadata_by_context-SameItems,
}
use microservice_common.Database.Metadata.Deleting.{all_sets_of, delete_ranges, delete_total_data}
use microservice_common.Database.Metadata.Context.{has_set, any-all_sets_of}

find_by_id-put_by_id_other {ℓ} :
    {A : Type ℓ} (id j : ℤ) (a : A) (xs : List (ℤ × A))
    → int_eq id j ≡ false
    → find_by_id j (put_by_id id a xs) ≡ find_by_id j xs
find_by_id-put_by_id_other id j a [] h = refl
find_by_id-put_by_id_other id j a ((k, b) ∷ xs) h = ground (
  arith,
  int_eq_iff k id,
  int_eq_iff k j,
  int_eq_iff id j,
  find_by_id-put_by_id_other id j a xs h,
)

module _ (m : Driver) where
  HoldsPayload_same :
      (id : ℤ) (db after : Database m) (ts : List Trajectory)
      → find_by_id id after.tables_by_persistence_id ≡ find_by_id id db.tables_by_persistence_id
      → HoldsPayload m id db ts
      → HoldsPayload m id after ts
  HoldsPayload_same id db after ts e h = record {
    table = h.table;
    positive = h.positive;
    found = e ∙ h.found;
    encoded = h.encoded;
  }

  HoldsPayload_at :
      (id j : ℤ) (db : Database m) (ts : List Trajectory)
      → int_eq id j ≡ true
      → HoldsPayload m id db ts
      → HoldsPayload m j db ts
  HoldsPayload_at id j db ts e h = subst (λ i. HoldsPayload m i db ts) ((int_eq_iff id j).0 e) h

module _ (m : Driver) (ok : Reliable m) where
  -- A range's deletion leaves nothing in its set, and the other sets alone.
  delete_data_range-others :
      (f : Filter) (ts : List Trajectory) (db : Database m)
      → HoldsPayload m f.persistence_set_id db ts
      → (after : Database m) × (delete_data_range m f db ≡ returned after)
        × HoldsPayload m f.persistence_set_id after []
        × ((j : ℤ)
            → int_eq f.persistence_set_id j ≡ false
            → find_by_id j after.tables_by_persistence_id
              ≡ find_by_id j db.tables_by_persistence_id)
  unfolding delete_data_range
  delete_data_range-others f ts db h =
      let id = f.persistence_set_id in
      let t2 = (m.remove everything h.table).0 in
      (
        with_payload m id t2 db,
        rw (get_payload_table_ref-found m id db ts h) refl,
        record {
          table = t2;
          positive = h.positive;
          found = find_by_id-put_by_id id h.table t2 db.tables_by_persistence_id h.found;
          encoded =
              remove_everything-Encodes m trajectory_document h.table ts
                (ok.removes everything h.table) h.encoded;
        },
        λ j e. find_by_id-put_by_id_other id j t2 db.tables_by_persistence_id e,
      )

  delete_ranges-empty :
      (leftover : Filter) (ids : List ℤ) (db : Database m)
      → ((j : ℤ)
          → any (λ i. int_eq i j) ids ≡ true
          → (ts : List Trajectory) × HoldsPayload m j db ts)
      → (after : Database m) × (delete_ranges m leftover ids db ≡ returned after)
        × ((j : ℤ) → any (λ i. int_eq i j) ids ≡ true → HoldsPayload m j after [])
        × ((j : ℤ)
            → any (λ i. int_eq i j) ids ≡ false
            → find_by_id j after.tables_by_persistence_id
              ≡ find_by_id j db.tables_by_persistence_id)
  delete_ranges-empty leftover [] db h = (db, refl, λ j e. cc, λ j e. refl)
  delete_ranges-empty leftover (id ∷ ids) db h =
      let (ts, first) = h id (ground (arith, int_eq_refl id)) in
      let (db2, e, gone, others) =
        delete_data_range-others (record leftover { persistence_set_id = id }) ts db first in
      let (after, e2, empty, untouched) = delete_ranges-empty leftover ids db2 (λ j i.
        elim (Bool-cases (int_eq id j)) [
          | inl same ↦ ([], HoldsPayload_at m id j db2 [] same gone)
          | inr other ↦
              let (ts2, h2) = h j (ground arith) in
              (ts2, HoldsPayload_same m j db db2 ts2 (others j other) h2)
        ]) in
      (
        after,
        ap (λ r. r >>= delete_ranges m leftover ids) e ∙ e2,
        λ j i. elim (Bool-cases (any (λ k. int_eq k j) ids)) [
          | inl later ↦ empty j later
          | inr only ↦
              HoldsPayload_same m j db2 after [] (untouched j only)
                (HoldsPayload_at m id j db2 [] (ground arith) gone)
        ],
        λ j i. untouched j (ground arith) ∙ others j (ground arith),
      )

  -- Over a driver that acknowledges every write, where the stored sets could be written and each
  -- recorder's set of a context has a payload, deleting the context's data leaves nothing in the
  -- payload of each of them and the payload of every other set as it was.
  pub delete_total_data-Holds :
      (leftover : Filter) (ctx : ℕ) (db : Database m) (ms : List StoredSet)
      → ltb ctx (2 ^ 32) ≡ true
      → HoldsMetadata m db ms
      → ((id : ℤ) → has_set ctx ms id ≡ true → (ts : List Trajectory) × HoldsPayload m id db ts)
      → (after : Database m) × (delete_total_data m leftover ctx db ≡ returned after)
        × ((id : ℤ) → has_set ctx ms id ≡ true → HoldsPayload m id after [])
        × ((id : ℤ)
            → has_set ctx ms id ≡ false
            → find_by_id id after.tables_by_persistence_id
              ≡ find_by_id id db.tables_by_persistence_id)
  unfolding delete_total_data
  delete_total_data-Holds leftover ctx db ms small h hp =
      let (out, e, raws, only, z) =
        get_persistence_set_metadata_by_context-SameItems m ctx db ms small h in
      let same : (id : ℤ) → any (λ i. int_eq i id) (all_sets_of out) ≡ has_set ctx ms id =
        λ id. any-all_sets_of (λ i. int_eq i id) ctx ms out raws only in
      let (after, e2, empty, untouched) =
        delete_ranges-empty leftover (all_sets_of out) db (λ j i. hp j (sym (same j) ∙ i)) in
      (after, rw e e2, λ id i. empty id (same id ∙ i), λ id i. untouched id (same id ∙ i))
