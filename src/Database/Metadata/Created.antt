-- ===== src/Database/Metadata/Created.antt =====
-- Storing metadata, in terms of the persistence sets that the collection holds.
use microservice_common.Base.{
  ℕ, ◌≡◌, refl, ap, ◌∙◌, ◌^◌, String, Bool, true, false, not, ◌||◌, List, [], ◌∷◌, map, filter, any,
  ltb, if◌then◌else◌, arith, Bool-cases, inl, inr, none, some,
}
use microservice_common.Base.Counting.{SameItems}
use microservice_common.Base.Int.{ℤ, pos, int_eq}
use microservice_common.Common.Outcome.{returned, aborted, ◌>>=◌, asserting}
use microservice_common.Common.Persistence.{
  EPersistenceDataType, trajectory, weather, undefined_data, PersistenceMetadata,
  PersistenceMetadataDescr, PersistenceMetadataRaw, invalid_persistence_id,
  convert_data_type_to_str,
}
use microservice_common.Mongo.Document.{int64}
use microservice_common.Mongo.Query.{equals, update_first}
use microservice_common.Mongo.Driver.{Driver, Reliable}
use microservice_common.Database.State.{Database, find_by_id}
use microservice_common.Database.Metadata.{all_context_id, get_persistence_set_metadata_by_context}
use microservice_common.Database.Metadata.Writing.{
  Connection, is_valid_global, write_persistence_metadata_global, is_persistence_metadata_valid,
  create_new_persistence_id, write_new, write_set, write_persistence_set_metadata_video,
  write_persistence_set_metadata_dss, write_persistence_set_metadata_raw, raw_table_name,
  create_payload_table_ref,
}
use microservice_common.Database.Metadata.Scan.{raw_sets}
use microservice_common.Database.Metadata.Contents.{
  StoredSet, set_document, is_storable, is_known, is_from_recorder, data_text, as_raw, in_context,
  HoldsMetadata, get_persistence_set_metadata_by_context-SameItems,
}
use microservice_common.Database.Metadata.BySet.{get_persistence_set_metadata_by_set-returned}

-- The first set of the number gives way to the new one; a number that no set has comes last.
unfoldable pub put_set : StoredSet → List StoredSet → List StoredSet
put_set s [] = s ∷ []
put_set s (x ∷ xs) =
    if int_eq s.descr.persistence_set_id x.descr.persistence_set_id
    then s ∷ xs
    else x ∷ put_set s xs

update_first-set_document :
    (s : StoredSet) (ms : List StoredSet)
    → update_first true
        (equals "persistence_id" (int64 s.descr.persistence_set_id))
        (set_document s)
        (map set_document ms)
      ≡ map set_document (put_set s ms)
unfolding put_set
update_first-set_document s [] = refl
update_first-set_document s (x ∷ xs) = ground (arith, update_first-set_document s xs)

put_set_storable :
    (s : StoredSet) (ms : List StoredSet)
    → is_storable s ≡ true
    → any (λ x. not (is_storable x)) ms ≡ false
    → any (λ x. not (is_storable x)) (put_set s ms) ≡ false
unfolding put_set
put_set_storable s [] h hs = ap (λ b. not b || false) h
put_set_storable s (x ∷ xs) h hs = elim (Bool-cases (is_storable x)) [
  | inl e ↦ ground (arith, put_set_storable s xs h)
  | inr e ↦ ground arith
]

convert_data_type_to_str-known :
    (k : EPersistenceDataType)
    → is_known k ≡ true
    → convert_data_type_to_str k ≡ returned (data_text k)
unfolding convert_data_type_to_str
convert_data_type_to_str-known trajectory h = refl
convert_data_type_to_str-known weather h = refl
convert_data_type_to_str-known undefined_data h = cc

-- The set that a call stores.
abbrev pub stored_set : ℤ → String → PersistenceMetadataDescr → StoredSet
stored_set id table_name meta = record {
  table_name = table_name;
  descr = record meta { persistence_set_id = id };
}

module _ (m : Driver) (c : Connection m) where
  -- What is stored for a recorder's set, with the name of its collection.
  abbrev pub recorder_set : ℤ → PersistenceMetadataRaw → StoredSet
  recorder_set id meta =
      stored_set id (raw_table_name c.table_name_prefix (data_text meta.descr.data_type) meta)
        meta.descr

  -- No new number can be had while a set is stored, so that the validation aborts.
  write_new-aborted :
      (table_name : String) (meta : PersistenceMetadataDescr) (special : Database m → Database m)
      (db : Database m) (x : StoredSet) (xs : List StoredSet)
      → HoldsMetadata m db (x ∷ xs)
      → write_new m c table_name meta special db ≡ aborted
  unfolding create_new_persistence_id write_persistence_metadata_global
  write_new-aborted table_name meta special db x xs h =
      let (out, e, raws, only, empty) =
        get_persistence_set_metadata_by_context-SameItems m all_context_id db (x ∷ xs) refl h in
      rw (e, empty) (ground arith)

  asked_aborted :
      (table_name : String → String) (meta : PersistenceMetadataDescr)
      (special : Database m → Database m) (db : Database m) (x : StoredSet) (xs : List StoredSet)
      → meta.persistence_set_id ≡ invalid_persistence_id
      → HoldsMetadata m db (x ∷ xs)
      → (k : EPersistenceDataType)
      → (convert_data_type_to_str k >>= λ kind. write_set m c (table_name kind) meta special db)
        ≡ aborted
  unfolding convert_data_type_to_str write_persistence_metadata_global
  asked_aborted table_name meta special db x xs e h trajectory =
      rw e (write_new-aborted (table_name "traj") meta special db x xs h)
  asked_aborted table_name meta special db x xs e h weather =
      rw e (write_new-aborted (table_name "weather") meta special db x xs h)
  asked_aborted table_name meta special db x xs e h undefined_data = refl

  -- Where a set is stored, and the stored sets could be written, writing the metadata of a new set
  -- aborts, whatever its source: no number is given out.
  pub write_persistence_set_metadata-aborted :
      (meta : PersistenceMetadataDescr) (sensor : ℕ) (real : Bool) (n : ℤ) (db : Database m)
      (x : StoredSet) (xs : List StoredSet)
      → meta.persistence_set_id ≡ invalid_persistence_id
      → HoldsMetadata m db (x ∷ xs)
      → (write_persistence_set_metadata_raw m c (record { descr = meta; a = n }) db ≡ aborted)
        × (write_persistence_set_metadata_video m c
              (record { descr = meta; recorded_from_sensor_id = sensor })
              db
            ≡ aborted)
        × (write_persistence_set_metadata_dss m c (record { descr = meta; real_data = real }) db
            ≡ aborted)
  unfolding write_persistence_set_metadata_raw write_persistence_set_metadata_video
      write_persistence_set_metadata_dss
  write_persistence_set_metadata-aborted meta sensor real n db x xs e h = (
    asked_aborted (λ kind. raw_table_name c.table_name_prefix kind (record { descr = meta; a = n }))
        meta (λ db2. db2) db x xs e h meta.data_type,
    asked_aborted _ meta _ db x xs e h meta.data_type,
    asked_aborted _ meta _ db x xs e h meta.data_type,
  )

module _ (m : Driver) (c : Connection m) (ok : Reliable m) where
  write_persistence_metadata_global-Holds :
      (id : ℤ) (table_name : String) (meta : PersistenceMetadataDescr) (db : Database m)
      (ms : List StoredSet)
      → is_storable (stored_set id table_name meta) ≡ true
      → HoldsMetadata m db ms
      → (after : Database m) × (write_persistence_metadata_global m c id table_name meta db
          ≡ returned after)
        × HoldsMetadata m after (put_set (stored_set id table_name meta) ms)
        × (after.tables_by_persistence_id ≡ db.tables_by_persistence_id)
  unfolding write_persistence_metadata_global
  write_persistence_metadata_global-Holds id table_name meta db ms good (h, storable) =
      let s = stored_set id table_name meta in
      let q = equals "persistence_id" (int64 id) in
      let valid : is_valid_global id meta ≡ true = ground arith in
      (
        record db {
          table_persistence_metadata =
              (m.update true q (set_document s) db.table_persistence_metadata).0;
        },
        rw (valid, convert_data_type_to_str-known meta.data_type (ground arith), asserting) refl,
        (
          m.update_lem true q (set_document s) _ (ok.updates true q _ _)
              ∙ ap (update_first true q (set_document s)) h
              ∙ update_first-set_document s ms,
          put_set_storable s ms good storable,
        ),
        refl,
      )

  pub write_persistence_set_metadata_raw-Holds :
      (meta : PersistenceMetadataRaw) (db : Database m) (ms : List StoredSet)
      → is_storable (recorder_set m c meta.descr.persistence_set_id meta) ≡ true
      → HoldsMetadata m db ms
      → (after : Database m) × (write_persistence_set_metadata_raw m c meta db
          ≡ returned (after, meta.descr.persistence_set_id))
        × HoldsMetadata m after (put_set (recorder_set m c meta.descr.persistence_set_id meta) ms)
  unfolding write_persistence_set_metadata_raw is_persistence_metadata_valid
  write_persistence_set_metadata_raw-Holds meta db ms good h =
      let id = meta.descr.persistence_set_id in
      let name = raw_table_name c.table_name_prefix (data_text meta.descr.data_type) meta in
      let (after, e, held, same_refs) =
        write_persistence_metadata_global-Holds id name meta.descr db ms good h in
      let (found, ef, z) = get_persistence_set_metadata_by_set-returned m c.stale id db ms h in
      let valid : int_eq id invalid_persistence_id ≡ false = ground arith in
      (
        after,
        rw (convert_data_type_to_str-known meta.descr.data_type (ground arith), valid, ef, e) refl,
        held,
      )

  -- Over a driver that acknowledges every write, writing a new recorder's set that can be written
  -- to a database without metadata returns the number 1, stores the set under it, and makes a
  -- reference to its collection, where the index can be created and the number has no reference
  -- yet.
  pub write_persistence_set_metadata_raw-created :
      (meta : PersistenceMetadataRaw) (db : Database m)
      → meta.descr.persistence_set_id ≡ invalid_persistence_id
      → is_storable (recorder_set m c (pos 1) meta) ≡ true
      → c.index_created (recorder_set m c (pos 1) meta).table_name ≡ true
      → find_by_id (pos 1) db.tables_by_persistence_id ≡ none
      → HoldsMetadata m db []
      → (after : Database m) × (write_persistence_set_metadata_raw m c meta db
          ≡ returned (after, pos 1))
        × HoldsMetadata m after (recorder_set m c (pos 1) meta ∷ [])
        × (find_by_id (pos 1) after.tables_by_persistence_id
            ≡ some (c.collection (recorder_set m c (pos 1) meta).table_name))
  unfolding write_persistence_set_metadata_raw create_new_persistence_id create_payload_table_ref
      put_set
  write_persistence_set_metadata_raw-created meta db new good indexed free h =
      let name = raw_table_name c.table_name_prefix (data_text meta.descr.data_type) meta in
      let (out, e, raws, only, empty) =
        get_persistence_set_metadata_by_context-SameItems m all_context_id db [] refl h in
      let (after, ew, held, same_refs) =
        write_persistence_metadata_global-Holds (pos 1) name meta.descr db [] good h in
      let invalid : int_eq meta.descr.persistence_set_id invalid_persistence_id ≡ true =
        ap (λ i. int_eq i invalid_persistence_id) new in
      let free2 : find_by_id (pos 1) after.tables_by_persistence_id ≡ none =
        ap (find_by_id (pos 1)) same_refs ∙ free in
      (
        record after {
          tables_by_persistence_id = (pos 1, c.collection name) ∷ after.tables_by_persistence_id;
        },
        simp
            (
              convert_data_type_to_str-known meta.descr.data_type (ground arith),
              invalid,
              e,
              empty,
              ew,
              indexed,
              free2,
            )
            refl,
        held,
        refl,
      )

  -- Over a driver that acknowledges every write, and where the stored sets and the one that is
  -- written could be written, writing a recorder's set under its number returns the number, and a
  -- context, or all, is then read back as its recorder's sets, in some order, with the new set in
  -- the place of the first of its number or added.
  pub written_set_read_back :
      (meta : PersistenceMetadataRaw) (ctx : ℕ) (db : Database m) (ms : List StoredSet)
      → is_storable (recorder_set m c meta.descr.persistence_set_id meta) ≡ true
      → ltb ctx (2 ^ 32) ≡ true
      → HoldsMetadata m db ms
      → (after : Database m) × (write_persistence_set_metadata_raw m c meta db
          ≡ returned (after, meta.descr.persistence_set_id))
        × (out : List PersistenceMetadata) × (get_persistence_set_metadata_by_context m ctx after
            ≡ returned out)
        × SameItems (raw_sets out) (
            map as_raw (
              filter is_from_recorder (
                filter
                  (in_context ctx)
                  (put_set (recorder_set m c meta.descr.persistence_set_id meta) ms))))
  written_set_read_back meta ctx db ms good small h =
      let (after, e, held) = write_persistence_set_metadata_raw-Holds meta db ms good h in
      let (out, eo, raws, only, empty) =
        get_persistence_set_metadata_by_context-SameItems m ctx after _ small held in
      (after, e, out, eo, raws)
