-- ===== src/Database/Descriptions/Distinct.antt =====
-- Session numbers are distinct over all stored descriptions.
use microservice_common.Base.{
  ◌≤◌, ◌≡◌, refl, sym, ◌∙◌, Bool, true, false, ◌&&◌, List, [], ◌∷◌, ◌++◌, any, filter, arith,
  Bool-cases, inl, inr, subst,
}
use microservice_common.Base.Int.{ℤ, int_eq, int_eq_iff}
use microservice_common.Base.Counting.{count, any-count, count-filter, count-append, count-map}
use microservice_common.Common.Types.{EventsSessionInfo}
use microservice_common.Mongo.Driver.{Driver, Reliable}
use microservice_common.Database.State.{Database}
use microservice_common.Database.Descriptions.{
  insert_session_description, update_session_description, select_session_descriptions,
  delete_session_description,
}
use microservice_common.Database.Descriptions.Contents.{
  Description, has_number, in_set, stored, replace_number, HoldsDescriptions,
  select_session_descriptions-SameItems, Stores, insert_session_description-Stores,
  update_session_description-Stores, delete_session_description-Holds,
}

-- An opaque record, so that a proof of it is passed on whole.
pub record IsDistinct (ds : List Description) : Type 0 where
  pub at_most_one : (n : ℤ) → count (has_number n) ds ≤ 1

pub data DescriptionCall : Type 0 where
  inserts : ℤ → EventsSessionInfo → DescriptionCall
  updates : ℤ → EventsSessionInfo → DescriptionCall
  deletes : ℤ → ℤ → DescriptionCall

module _ (m : Driver) where
  unfoldable pub call_step : DescriptionCall → Database m → Database m
  call_step (inserts p info) db = (insert_session_description m p info db).0
  call_step (updates p info) db = (update_session_description m p info db).0
  call_step (deletes p n) db = delete_session_description m p n db

  unfoldable pub run_calls : List DescriptionCall → Database m → Database m
  run_calls [] db = db
  run_calls (c ∷ cs) db = run_calls cs (call_step c db)

no_number-count :
    (n : ℤ) (ds : List Description) → any (has_number n) ds ≡ false → count (has_number n) ds ≡ 0
no_number-count n ds h = ground (arith, any-count (has_number n) ds)

append-IsDistinct :
    (d : Description) (ds : List Description)
    → any (has_number d.info.number) ds ≡ false
    → IsDistinct ds
    → IsDistinct (ds ++ d ∷ [])
append-IsDistinct d ds h v = record {
  at_most_one = λ n. elim (Bool-cases (int_eq n d.info.number)) [
    | inl e ↦ ground (
      arith,
      count-append (has_number n) ds (d ∷ []),
      no_number-count d.info.number ds h,
      int_eq_iff n d.info.number,
    )
    | inr e ↦ ground (arith, count-append (has_number n) ds (d ∷ []), v.at_most_one n)
  ];
}

count-replace_number :
    (n : ℤ) (d : Description) (ds : List Description)
    → count (has_number n) (replace_number d ds) ≡ count (has_number n) ds
unfolding replace_number
count-replace_number n d [] = refl
count-replace_number n d (x ∷ xs) =
    ground (arith, int_eq_iff d.info.number x.info.number, count-replace_number n d xs)

count-filter-le :
    (p q : Description → Bool) (ds : List Description) → count p (filter q ds) ≤ count p ds
count-filter-le p q [] = omega arith
count-filter-le p q (d ∷ ds) = ground (arith, count-filter-le p q ds)

count-and-le :
    (p' n : ℤ) (ds : List Description)
    → count (λ x. in_set p' x && has_number n x) ds ≤ count (has_number n) ds
count-and-le p' n [] = omega arith
count-and-le p' n (d ∷ ds) = ground (arith, count-and-le p' n ds)

count-replace_number_other_set :
    (p' : ℤ) (d : Description) (ds : List Description)
    → int_eq p' d.pers_id ≡ false
    → count (has_number d.info.number) ds ≤ 1
    → count (λ x. in_set p' x && has_number d.info.number x) (replace_number d ds) ≡ 0
unfolding replace_number
count-replace_number_other_set p' d [] ne h = refl
count-replace_number_other_set p' d (x ∷ xs) ne h =
    ground (arith, count-replace_number_other_set p' d xs ne, count-and-le p' d.info.number xs)

-- The descriptions that a database holds, with distinct numbers.
abbrev pub HoldsDistinct : (m : Driver) → Database m → Type 0
HoldsDistinct m db = (ds : List Description) × HoldsDescriptions m db ds × IsDistinct ds

Stores-HoldsDistinct :
    (m : Driver) (db : Database m) (b : Bool) (ds ds' : List Description) (r : Database m × Bool)
    → Stores m db b ds' r
    → HoldsDescriptions m db ds
    → IsDistinct ds
    → (b ≡ true → IsDistinct ds')
    → HoldsDistinct m r.0
Stores-HoldsDistinct m db false ds ds' r e h v f =
    (ds, subst (λ x. HoldsDescriptions m x.0 ds) (sym e) h, v)
Stores-HoldsDistinct m db true ds ds' r e h v f = (ds', e.0, f refl)

carried_out :
    (m : Driver) (db : Database m) (b : Bool) (ds : List Description) (r : Database m × Bool)
    → Stores m db b ds r
    → r.1 ≡ true
    → HoldsDescriptions m r.0 ds
carried_out m db true ds r e done = e.0
carried_out m db false ds r e done = cc

module _ (m : Driver) (ok : Reliable m) where
  call_step-HoldsDistinct :
      (c : DescriptionCall) (db : Database m)
      → HoldsDistinct m db
      → HoldsDistinct m (call_step m c db)
  unfolding call_step
  call_step-HoldsDistinct (inserts p info) db (ds, h, v) =
      Stores-HoldsDistinct m db _ ds _ _ (insert_session_description-Stores m ok p info db ds h) h v
        (λ e. append-IsDistinct (record { pers_id = p; info = info }) ds (ground arith) v)
  call_step-HoldsDistinct (updates p info) db (ds, h, v) =
      Stores-HoldsDistinct m db _ ds _ _ (update_session_description-Stores m ok p info db ds h) h v
        (λ e. record {
          at_most_one = λ n. omega (
            arith,
            count-replace_number n (record { pers_id = p; info = info }) ds,
            v.at_most_one n,
          );
        })
  call_step-HoldsDistinct (deletes p n) db (ds, h, v) = (
    _,
    delete_session_description-Holds m ok p n db ds h,
    record {
      at_most_one = λ k. omega (arith, count-filter-le (has_number k) _ ds, v.at_most_one k);
    },
  )

  run_calls-HoldsDistinct :
      (cs : List DescriptionCall) (db : Database m)
      → HoldsDistinct m db
      → HoldsDistinct m (run_calls m cs db)
  unfolding run_calls
  run_calls-HoldsDistinct [] db h = h
  run_calls-HoldsDistinct (c ∷ cs) db h =
      run_calls-HoldsDistinct cs (call_step m c db) (call_step-HoldsDistinct c db h)

  -- Over a driver that acknowledges every write, and where the stored session numbers are
  -- distinct, no selection after any insertions, updates and deletions hands back two descriptions
  -- of one session number.
  pub select_session_descriptions-distinct :
      (cs : List DescriptionCall) (db : Database m) (p n : ℤ)
      → HoldsDistinct m db
      → count (λ s. int_eq n s.number) (select_session_descriptions m p (run_calls m cs db)) ≤ 1
  select_session_descriptions-distinct cs db p n h =
      let (ds, h', v) = run_calls-HoldsDistinct cs db h in
      omega (
        arith,
        select_session_descriptions-SameItems m p (run_calls m cs db) ds h'
            (λ s. int_eq n s.number),
        count-map (λ (d : Description). stored d.info) (λ s. int_eq n s.number)
            (filter (in_set p) ds),
        count-filter-le (has_number n) (in_set p) ds,
        v.at_most_one n,
      )

  -- Over a driver that acknowledges every write, and where the stored session numbers are
  -- distinct, an update under one set that is carried out takes the session away from every other
  -- set.
  pub update_session_description_takes_over :
      (p p' : ℤ) (info : EventsSessionInfo) (db : Database m)
      → HoldsDistinct m db
      → int_eq p' p ≡ false
      → (update_session_description m p info db).1 ≡ true
      → count
          (λ s. int_eq info.number s.number)
          (select_session_descriptions m p' (update_session_description m p info db).0)
        ≡ 0
  update_session_description_takes_over p p' info db (ds, h, v) ne done =
      let d : Description = record { pers_id = p; info = info } in
      let stored' =
        carried_out m db _ _ (update_session_description m p info db)
          (update_session_description-Stores m ok p info db ds h) done in
      select_session_descriptions-SameItems m p' _ (replace_number d ds) stored'
        (λ s. int_eq info.number s.number)
      ∙ count-map (λ (x : Description). stored x.info) (λ s. int_eq info.number s.number)
          (filter (in_set p') (replace_number d ds))
      ∙ count-filter (has_number info.number) (in_set p') (replace_number d ds)
      ∙ count-replace_number_other_set p' d ds ne (v.at_most_one info.number)
