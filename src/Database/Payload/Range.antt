-- ===== src/Database/Payload/Range.antt =====
-- Writing, reading and deleting the payload of a set, in terms of the trajectories that it holds.
use microservice_common.Base.{
  not, is_empty, append_nil, ◌≡◌, refl, ap, sym, ◌∙◌, Bool, true, false, ◌&&◌, ◌||◌, List, [], ◌∷◌,
  ◌++◌, map, some, if◌then◌else◌, arith, Bool-cases, inl, inr,
}
use mathlib.Core.List.{map-append}
use microservice_common.Base.Int.{ℤ, pos, ◌<ℤ◌, int_eq, ltb_ℤ, leb_ℤ}
use microservice_common.Base.Counting.{SameItems}
use microservice_common.Common.Types.{Trajectory, Filter}
use microservice_common.Common.Outcome.{Outcome, returned}
use microservice_common.Mongo.Document.{Document}
use microservice_common.Mongo.Query.{everything}
use microservice_common.Mongo.Encoded.{Encodes, remove_everything-Encodes}
use microservice_common.Mongo.Driver.{Driver, Reliable}
use microservice_common.Database.State.{Database, find_by_id}
use microservice_common.Database.Payload.{
  get_payload_table_ref, trajectory_document, write_trajectory_data, delete_data_range, is_active,
  put_by_id, with_payload, is_found, found_or_undefined,
}

-- A filter whose bounds are both 0 or more asks for its session's trajectories with a logic time
-- between them; any other asks for the whole set, of every session.
unfoldable pub in_range : Filter → Trajectory → Bool
in_range f t =
    if ltb_ℤ f.min_logic_step (pos 0) || ltb_ℤ f.max_logic_step (pos 0)
    then true
    else int_eq f.session_num t.session_num
      && leb_ℤ f.min_logic_step t.logic_time
      && leb_ℤ t.logic_time f.max_logic_step

-- What is known of a trajectory that was read: all but the position of an object that is not active.
unfoldable pub known : Trajectory → Trajectory
known t =
    if is_active t.state then t else record t { lat_deg = 0; lon_deg = 0; height = 0; yaw_deg = 0 }

else_of {ℓ} :
    {A : Type ℓ} {b : Bool} (x : A) {y z : A} → b ≡ false → (if b then x else y) ≡ z → y ≡ z
else_of x {y} e h = sym (ap (λ c. if c then x else y) e) ∙ h

pub find_by_id-put_by_id {ℓ} :
    {A : Type ℓ} (id : ℤ) (a b : A) (xs : List (ℤ × A))
    → find_by_id id xs ≡ some a
    → find_by_id id (put_by_id id b xs) ≡ some b
find_by_id-put_by_id id a b [] h = cc
find_by_id-put_by_id id a b ((j, c) ∷ xs) h = elim (Bool-cases (int_eq j id)) [
  | inl e ↦ simp e refl
  | inr e ↦ simp e (find_by_id-put_by_id id a b xs (else_of (some c) e h))
]

module _ (m : Driver) where
  -- The set has a collection, which holds these trajectories.
  pub record HoldsPayload (id : ℤ) (db : Database m) (ts : List Trajectory) : Type 0 where
    pub table : m.Table
    pub positive : pos 0 <ℤ id
    pub found : find_by_id id db.tables_by_persistence_id ≡ some table
    pub encoded : Encodes m trajectory_document table ts

  pub get_payload_table_ref-found :
      (id : ℤ) (db : Database m) (ts : List Trajectory) (h : HoldsPayload id db ts)
      → get_payload_table_ref m id db ≡ returned h.table
  unfolding get_payload_table_ref
  get_payload_table_ref-found id db ts h = rw (h.found, is_found, found_or_undefined) (ground arith)

  insert_bulk-documents :
      (ok : Reliable m) (data_ ts : List Trajectory) (t : m.Table)
      → Encodes m trajectory_document t ts
      → ((m.insert_bulk (map trajectory_document data_) t).1 ≡ not (is_empty data_))
        × Encodes m trajectory_document
            (m.insert_bulk (map trajectory_document data_) t).0
            (ts ++ data_)
  insert_bulk-documents ok [] ts t h = (
    ap (λ r. r.1) (m.insert_bulk_nil t),
    ap (λ r. m.contents r.0) (m.insert_bulk_nil t)
        ∙ h
        ∙ ap (map trajectory_document) (sym (append_nil ts)),
  )
  insert_bulk-documents ok (x ∷ xs) ts t h =
      let done = ok.inserts_bulk (trajectory_document x) (map trajectory_document xs) t in
      (
        done,
        m.insert_bulk_lem _ t done
            ∙ ap (λ ds. ds ++ map trajectory_document (x ∷ xs)) h
            ∙ sym (map-append trajectory_document ts (x ∷ xs)),
      )

  -- Over a driver that acknowledges every write, a written set holds what it held and then the
  -- written trajectories, and the call reports success exactly if there are trajectories to write:
  -- the driver refuses an empty bulk.
  pub write_trajectory_data-Holds :
      (ok : Reliable m) (id : ℤ) (data_ ts : List Trajectory) (db : Database m)
      → HoldsPayload id db ts
      → (after : Database m) × (write_trajectory_data m id data_ db
          ≡ returned (after, not (is_empty data_)))
        × HoldsPayload id after (ts ++ data_)
  unfolding write_trajectory_data
  write_trajectory_data-Holds ok id data_ ts db h =
      let (done, encoded_) = insert_bulk-documents ok data_ ts h.table h.encoded in
      let t2 = (m.insert_bulk (map trajectory_document data_) h.table).0 in
      (
        with_payload m id t2 db,
        rw (get_payload_table_ref-found id db ts h, done) refl,
        record {
          table = t2;
          positive = h.positive;
          found = find_by_id-put_by_id id h.table t2 db.tables_by_persistence_id h.found;
          encoded = encoded_;
        },
      )

  -- Over a driver that acknowledges every write, deleting a range of a set's data, whatever its
  -- session and steps, leaves nothing in the set.
  pub delete_data_range-Holds :
      (ok : Reliable m) (f : Filter) (ts : List Trajectory) (db : Database m)
      → HoldsPayload f.persistence_set_id db ts
      → (after : Database m) × (delete_data_range m f db ≡ returned after)
        × HoldsPayload f.persistence_set_id after []
  unfolding delete_data_range
  delete_data_range-Holds ok f ts db h =
      let t2 = (m.remove everything h.table).0 in
      (
        with_payload m f.persistence_set_id t2 db,
        rw (get_payload_table_ref-found f.persistence_set_id db ts h) refl,
        record {
          table = t2;
          positive = h.positive;
          found =
              find_by_id-put_by_id f.persistence_set_id h.table t2 db.tables_by_persistence_id
                h.found;
          encoded =
              remove_everything-Encodes m trajectory_document h.table ts
                (ok.removes everything h.table) h.encoded;
        },
      )

  -- A reading gives these trajectories, in some order, in all that is known of one that was read.
  abbrev pub ReadsKnown : Outcome (List Trajectory) → List Trajectory → Type 0
  ReadsKnown r ts =
      (ys : List Trajectory) × (r ≡ returned ys) × SameItems (map known ys) (map known ts)
