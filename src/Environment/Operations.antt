-- ===== src/Environment/Operations.antt =====
-- The client operations that the facade stores are those of the abstract journal.
use microservice_common.Base.{
  String, ◌≡◌, refl, ap, sym, ◌∙◌, Bool, true, not, List, [], ◌∷◌, map, str_eq, str_eq_iff, filter,
  arith, Bool-cases, inl, inr, map-map_inverse,
}
use microservice_common.Base.Counting.{count, SameItems, count-map, SameItems-map}
use microservice_common.Common.Types.{ClientOperation, all_keys, non_integrity_keys}
use microservice_common.Common.Outcome.{Reads, returned}
use microservice_common.Mongo.Document.{Document, boolean, utf8}
use microservice_common.Mongo.Query.{Query, equals, is_in, update_first}
use microservice_common.Mongo.Pipeline.{singles_pipeline}
use microservice_common.Mongo.Encoded.{
  Encodes, remove-Encodes, remove_everything-Encodes, find_all-Encodes, find_unique-Encodes,
}
use microservice_common.Mongo.Driver.{Driver, Reliable}
use microservice_common.Database.State.{Database}
use microservice_common.Database.Operations.{
  operation_fields, write_client_operation, read_operation, get_client_operations, read_begun,
  get_non_integrity_client_operations, remove_client_operation,
}
use microservice_common.Wal.Journal.{put_operation, drop_operation, is_single_key}
use microservice_common.Wal.Service.{AllBegun}
use microservice_common.Environment.Persistence.{read_operations}

-- How an operation lies in its collection: the fields of the upsert's query come first.
abbrev pub operation_document : ClientOperation → Document
operation_document op =
    ("unique_key", utf8 op.unique_key)
    ∷ ("begin", boolean op.begin)
    ∷ ("full_text", utf8 op.command_full_text)
    ∷ []

update_first-operation_document :
    (op : ClientOperation) (os : List ClientOperation)
    → update_first true
        (equals "unique_key" (utf8 op.unique_key))
        (operation_fields op)
        (map operation_document os)
      ≡ map operation_document (put_operation op os)
unfolding put_operation
update_first-operation_document op [] = refl
update_first-operation_document op (o ∷ os) = ground (arith, update_first-operation_document op os)

module _ (m : Driver) where
  abbrev pub HoldsOperations : Database m → List ClientOperation → Type 0
  HoldsOperations db os = Encodes m operation_document db.table_wal_client_operations os

  read-operation_document : (o : ClientOperation) → read_operation m (operation_document o) ≡ o
  read-operation_document o = λ i. record {
    unique_key = m.read_utf8_lem "unique_key" (operation_document o) o.unique_key refl i;
    begin = m.read_bool_lem "begin" (operation_document o) o.begin refl i;
    command_full_text =
        m.read_utf8_lem "full_text" (operation_document o) o.command_full_text refl i;
  }

  -- Documents with the same items as encoded operations read back as those operations.
  read-SameItems :
      (ds : List Document) (os : List ClientOperation)
      → SameItems ds (map operation_document os)
      → SameItems (map (read_operation m) ds) os
  read-SameItems ds os h p =
      SameItems-map (read_operation m) ds _ h p
      ∙ ap (count p)
          (map-map_inverse operation_document (read_operation m) os read-operation_document)

  read_begun-returned :
      (ds : List Document)
      → count (λ d. not (read_operation m d).begin) ds ≡ 0
      → read_begun m ds ≡ returned (map (read_operation m) ds)
  unfolding read_begun
  read_begun-returned [] h = refl
  read_begun-returned (d ∷ ds) h = ground (arith, read_begun-returned ds)

  count-AllBegun :
      (p : ClientOperation → Bool) (os : List ClientOperation)
      → AllBegun os
      → count (λ o. not o.begin) (filter p os) ≡ 0
  count-AllBegun p [] h = refl
  count-AllBegun p (o ∷ os) h = ground (arith, count-AllBegun p os h.1)

  pub read_operations-AllKeys :
      (db : Database m) (os : List ClientOperation)
      → HoldsOperations db os
      → Reads (read_operations m all_keys db) os
  unfolding read_operations get_client_operations
  read_operations-AllKeys db os h = (
    get_client_operations m db,
    refl,
    read-SameItems _ os (find_all-Encodes m operation_document _ os h),
  )

  pub read_operations-NonIntegrityKeys :
      (db : Database m) (os : List ClientOperation)
      → HoldsOperations db os
      → AllBegun os
      → Reads (read_operations m non_integrity_keys db) (filter (is_single_key os) os)
  unfolding read_operations get_non_integrity_client_operations
  read_operations-NonIntegrityKeys db os h begun = (
    map (read_operation m) found,
    read_begun-returned found none_ended,
    read-SameItems found _ same,
  )
    where
      found : List Document
      found =
          let t = db.table_wal_client_operations in
          let keys = map (m.read_utf8 "_id") (m.aggregate (singles_pipeline "unique_key") t) in
          m.find (is_in "unique_key" (map utf8 keys)) t

      same : SameItems found (map operation_document (filter (is_single_key os) os))
      same =
          find_unique-Encodes m operation_document "unique_key" (λ o. o.unique_key) utf8 str_eq
            str_eq_iff (λ j k. refl) (m.read_utf8 "_id") (λ o. refl)
            (λ o. m.read_utf8_lem "_id" _ o.unique_key refl) db.table_wal_client_operations os h

      none_ended : count (λ d. not (read_operation m d).begin) found ≡ 0
      none_ended =
          sym (count-map (read_operation m) (λ o. not o.begin) found)
          ∙ read-SameItems found _ same (λ o. not o.begin)
          ∙ count-AllBegun (is_single_key os) os begun

module _ (m : Driver) (ok : Reliable m) where
  pub write_client_operation-HoldsOperations :
      (op : ClientOperation) (db : Database m) (os : List ClientOperation)
      → HoldsOperations m db os
      → HoldsOperations m (write_client_operation m op db).0 (put_operation op os)
  unfolding write_client_operation
  write_client_operation-HoldsOperations op db os h =
      m.update_lem true (query op) (operation_fields op) t (ok.updates true (query op) _ t)
      ∙ ap (update_first true (query op) (operation_fields op)) h
      ∙ update_first-operation_document op os
    where
      t : m.Table
      t = db.table_wal_client_operations

      query : ClientOperation → Query
      query o = equals "unique_key" (utf8 o.unique_key)

  pub remove_client_operation-HoldsOperations :
      (key : String) (db : Database m) (os : List ClientOperation)
      → HoldsOperations m db os
      → HoldsOperations m (remove_client_operation m key db) (drop_operation key os)
  unfolding remove_client_operation
  remove_client_operation-HoldsOperations key db os h = elim (Bool-cases (str_eq "" key)) [
    | inl e ↦ rw (e) (remove_everything-Encodes m operation_document _ os (ok.removes _ _) h)
    | inr e ↦ rw e (
        remove-Encodes m operation_document _ (λ o. str_eq key o.unique_key) _ os (λ o. refl)
          (ok.removes _ _) h)
  ]
