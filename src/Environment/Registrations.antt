-- ===== src/Environment/Registrations.antt =====
-- The user registrations that the facade stores are those of the abstract journal.
use microservice_common.Base.{
  String, ◌≡◌, refl, ap, ◌∙◌, List, [], ◌∷◌, ◌++◌, str_eq, Bool-cases, inl, inr, map-map_inverse,
}
use microservice_common.Base.Counting.{count, SameItems-map}
use microservice_common.Common.Types.{UserRegistration}
use microservice_common.Common.Outcome.{Reads, returned}
use microservice_common.Mongo.Encoded.{
  Encodes, insert-Encodes, remove-Encodes, remove_everything-Encodes, find_all-Encodes,
}
use microservice_common.Mongo.Driver.{Driver, Reliable}
use microservice_common.Database.State.{Database}
use microservice_common.Database.Registrations.{
  registration_document, write_user_registration, read_registration, get_user_registrations,
  remove_user_registration,
}
use microservice_common.Wal.Journal.{drop_registration}

module _ (m : Driver) where
  abbrev pub HoldsRegistrations : Database m → List UserRegistration → Type 0
  HoldsRegistrations db rs = Encodes m registration_document db.table_wal_user_registrations rs

  read-registration_document :
      (r : UserRegistration) → read_registration m (registration_document r) ≡ r
  read-registration_document r = λ i. record {
    register_id = m.read_utf8_lem "user_id" (registration_document r) r.register_id refl i;
    user_ip = m.read_utf8_lem "user_ip" (registration_document r) r.user_ip refl i;
    user_pid = m.read_int32_lem "user_pid" (registration_document r) r.user_pid refl i;
    registered_at_date_time =
        m.read_utf8_lem "registered_at_time_millisec" (registration_document r)
          r.registered_at_date_time refl i;
  }

  pub get_user_registrations-Reads :
      (db : Database m) (rs : List UserRegistration)
      → HoldsRegistrations db rs
      → Reads (returned (get_user_registrations m db)) rs
  unfolding get_user_registrations
  get_user_registrations-Reads db rs h = (
    get_user_registrations m db,
    refl,
    λ p.
        SameItems-map (read_registration m) _ _ (find_all-Encodes m registration_document _ rs h) p
        ∙ ap (count p) (
            map-map_inverse registration_document (read_registration m) rs
              read-registration_document),
  )

module _ (m : Driver) (ok : Reliable m) where
  pub write_user_registration-HoldsRegistrations :
      (r : UserRegistration) (db : Database m) (rs : List UserRegistration)
      → HoldsRegistrations m db rs
      → HoldsRegistrations m (write_user_registration m r db).0 (rs ++ r ∷ [])
  unfolding write_user_registration
  write_user_registration-HoldsRegistrations r db rs h =
      insert-Encodes m registration_document r _ rs (ok.inserts _ _) h

  pub remove_user_registration-HoldsRegistrations :
      (id : String) (db : Database m) (rs : List UserRegistration)
      → HoldsRegistrations m db rs
      → HoldsRegistrations m (remove_user_registration m id db) (drop_registration id rs)
  unfolding remove_user_registration
  remove_user_registration-HoldsRegistrations id db rs h = elim (Bool-cases (str_eq "" id)) [
    | inl e ↦ rw e (remove_everything-Encodes m registration_document _ rs (ok.removes _ _) h)
    | inr e ↦ rw e (
        remove-Encodes m registration_document _ (λ r. str_eq id r.register_id) _ rs (λ r. refl)
          (ok.removes _ _) h)
  ]
