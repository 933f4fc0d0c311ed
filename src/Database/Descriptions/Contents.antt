-- ===== src/Database/Descriptions/Contents.antt =====
-- What the operations on session descriptions do to the stored descriptions.
use microservice_common.Base.{
  ◌≡◌, refl, ap, ◌∙◌, Bool, true, false, not, ◌&&◌, ◌||◌, List, [], ◌∷◌, ◌++◌, map, any, filter,
  if◌then◌else◌, arith, Bool-cases, inl, inr, map-map, map-congr, any-map, not-is_empty-any,
  any-filter,
}
use microservice_common.Base.Int.{ℤ, pos, int_eq}
use microservice_common.Base.Keys.{any-SameItems}
use microservice_common.Base.Counting.{count, SameItems, SameItems-map}
use microservice_common.Common.Types.{EventsSessionInfo}
use microservice_common.Mongo.Document.{Document, int32, int64}
use microservice_common.Mongo.Query.{equals, update_first}
use microservice_common.Mongo.Encoded.{Encodes, insert-Encodes, remove-Encodes, find-Encodes}
use microservice_common.Mongo.Driver.{Driver, Reliable}
use microservice_common.Database.State.{Database}
use microservice_common.Database.Descriptions.{
  all_session_num, description_document, is_session_exist_in_description,
  insert_session_description, update_session_description, read_description,
  select_session_descriptions, delete_session_description,
}

-- A session's description under a persistence set.
pub record Description : Type 0 where
  pub pers_id : ℤ
  pub info : EventsSessionInfo

abbrev pub encode : Description → Document
encode d = description_document d.pers_id d.info

abbrev pub has_number : ℤ → Description → Bool
has_number n d = int_eq n d.info.number

abbrev pub in_set : ℤ → Description → Bool
in_set p d = int_eq p d.pers_id

-- What comes back of a description: the steps and the counts of empty steps are not kept.
abbrev pub stored : EventsSessionInfo → EventsSessionInfo
stored s = record s { steps = []; empty_steps_begin = pos 0; empty_steps_end = pos 0 }

-- The first description of the session gives way to the new one, whatever set it belonged to.
unfoldable pub replace_number : Description → List Description → List Description
replace_number d [] = []
replace_number d (x ∷ xs) = if has_number d.info.number x then d ∷ xs else x ∷ replace_number d xs

update_first-encode :
    (d : Description) (xs : List Description)
    → update_first false (equals "session_num" (int32 d.info.number)) (encode d) (map encode xs)
      ≡ map encode (replace_number d xs)
unfolding replace_number
update_first-encode d [] = refl
update_first-encode d (x ∷ xs) = ground (arith, update_first-encode d xs)

module _ (m : Driver) where
  abbrev pub HoldsDescriptions : Database m → List Description → Type 0
  HoldsDescriptions db ds = Encodes m encode db.table_persistence_description ds

  pub is_session_exist_in_description-any :
      (n : ℤ) (db : Database m) (ds : List Description)
      → HoldsDescriptions db ds
      → is_session_exist_in_description m n db ≡ any (has_number n) ds
  unfolding is_session_exist_in_description
  is_session_exist_in_description-any n db ds h =
      not-is_empty-any _
      ∙ any-SameItems (λ d. true) _ _
          (find-Encodes m encode (equals "session_num" (int32 n)) (has_number n)
            db.table_persistence_description ds (λ d. refl) h)
      ∙ any-map encode (λ d. true) (filter (has_number n) ds)
      ∙ any-filter (has_number n) ds

  read-encode : (d : Description) → read_description m (encode d) ≡ stored d.info
  read-encode d = λ i. record {
    number = m.read_int32_lem "session_num" (encode d) d.info.number refl i;
    min_logic_step = m.read_int64_lem "logic_time_min" (encode d) d.info.min_logic_step refl i;
    max_logic_step = m.read_int64_lem "logic_time_max" (encode d) d.info.max_logic_step refl i;
    min_timestamp_millisec =
        m.read_int64_lem "astro_time_min" (encode d) d.info.min_timestamp_millisec refl i;
    max_timestamp_millisec =
        m.read_int64_lem "astro_time_max" (encode d) d.info.max_timestamp_millisec refl i;
    steps = [];
    empty_steps_begin = m.read_int32_lem "empty_steps_begin" (encode d) (pos 0) refl i;
    empty_steps_end = m.read_int32_lem "empty_steps_end" (encode d) (pos 0) refl i;
  }

  -- Selecting a set hands back, in some order, each of its descriptions, without steps and counts
  -- of empty steps, and no other.
  pub select_session_descriptions-SameItems :
      (p : ℤ) (db : Database m) (ds : List Description)
      → HoldsDescriptions db ds
      → SameItems
          (select_session_descriptions m p db)
          (map (λ d. stored d.info) (filter (in_set p) ds))
  unfolding select_session_descriptions
  select_session_descriptions-SameItems p db ds h r =
      SameItems-map (read_description m) _ _
        (find-Encodes m encode (equals "persistence_id" (int64 p)) (in_set p)
          db.table_persistence_description ds (λ d. refl) h)
        r
      ∙ ap (count r) (
          map-map (read_description m) encode (filter (in_set p) ds)
          ∙ map-congr _ (λ d. stored d.info) (filter (in_set p) ds) read-encode)

-- What a call that stores a description does: it is refused and changes nothing, or it is carried out.
abbrev pub Stores : (m : Driver) → Database m → Bool → List Description → Database m × Bool → Type 0
Stores m db false ds r = r ≡ (db, false)
Stores m db true ds r = HoldsDescriptions m r.0 ds × (r.1 ≡ true)

module _ (m : Driver) (ok : Reliable m) where
  -- Over a driver that acknowledges every write, an insertion is carried out exactly if no stored
  -- description, of any set, has the session's number, and changes nothing otherwise.
  pub insert_session_description-Stores :
      (p : ℤ) (info : EventsSessionInfo) (db : Database m) (ds : List Description)
      → HoldsDescriptions m db ds
      → Stores m db
          (not (any (has_number info.number) ds))
          (ds ++ record { pers_id = p; info = info } ∷ [])
          (insert_session_description m p info db)
  unfolding insert_session_description
  insert_session_description-Stores p info db ds h =
      let e = is_session_exist_in_description-any m info.number db ds h in
      elim (Bool-cases (any (has_number info.number) ds)) [
        | inl old ↦ rw (e, old) refl
        | inr new ↦
            rw (e, new)
              (
                insert-Encodes m encode (record { pers_id = p; info = info }) _ ds (ok.inserts _ _)
                    h,
                ok.inserts _ _,
              )
      ]

  -- Over a driver that acknowledges every write, an update replaces the first stored description,
  -- of any set, that has the session's number, and is refused and changes nothing exactly if there
  -- is none.
  pub update_session_description-Stores :
      (p : ℤ) (info : EventsSessionInfo) (db : Database m) (ds : List Description)
      → HoldsDescriptions m db ds
      → Stores m db
          (any (has_number info.number) ds)
          (replace_number (record { pers_id = p; info = info }) ds)
          (update_session_description m p info db)
  unfolding update_session_description
  update_session_description-Stores p info db ds h =
      let e = is_session_exist_in_description-any m info.number db ds h in
      let d : Description = record { pers_id = p; info = info } in
      let q = equals "session_num" (int32 info.number) in
      elim (Bool-cases (any (has_number info.number) ds)) [
        | inl old ↦
            rw (e, old)
              (
                m.update_lem false q (encode d) _ (ok.updates false q _ _)
                    ∙ ap (update_first false q (encode d)) h
                    ∙ update_first-encode d ds,
                ok.updates false q _ _,
              )
        | inr new ↦ rw (e, new) refl
      ]

  -- Over a driver that acknowledges every write, a deletion takes out the set's descriptions that
  -- have the number, or all of the set's if the number is ALL_SESSION_NUM; those of other sets
  -- stay.
  pub delete_session_description-Holds :
      (p n : ℤ) (db : Database m) (ds : List Description)
      → HoldsDescriptions m db ds
      → HoldsDescriptions m
          (delete_session_description m p n db)
          (filter (λ d. not (in_set p d && (int_eq all_session_num n || has_number n d))) ds)
  unfolding delete_session_description
  delete_session_description-Holds p n db ds h = elim (Bool-cases (int_eq all_session_num n)) [
    | inl e ↦ rw e (
        remove-Encodes m encode _ (λ d. in_set p d && (true || has_number n d)) _ ds
          (λ d. ground arith) (ok.removes _ _) h)
    | inr e ↦ rw e (
        remove-Encodes m encode _ (λ d. in_set p d && (false || has_number n d)) _ ds (λ d. refl)
          (ok.removes _ _) h)
  ]
