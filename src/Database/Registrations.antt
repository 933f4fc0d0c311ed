-- ===== src/Database/Registrations.antt =====
-- storage/database_manager_base.cpp: the user registrations of the write-ahead log.
use microservice_common.Base.{String, Bool, List, [], ◌∷◌, map, str_eq, if◌then◌else◌}
use microservice_common.Common.Types.{UserRegistration}
use microservice_common.Mongo.Document.{Document, int32, utf8}
use microservice_common.Mongo.Query.{everything, equals}
use microservice_common.Mongo.Driver.{Driver}
use microservice_common.Database.State.{Database}

abbrev pub all_registration_ids : String
all_registration_ids = ""

abbrev pub registration_document : UserRegistration → Document
registration_document r =
    ("user_id", utf8 r.register_id)
    ∷ ("user_ip", utf8 r.user_ip)
    ∷ ("user_pid", int32 r.user_pid)
    ∷ ("registered_at_time_millisec", utf8 r.registered_at_date_time)
    ∷ []

module _ (m : Driver) where
  unfoldable pub write_user_registration : UserRegistration → Database m → Database m × Bool
  write_user_registration r db =
      let (t, rt) = m.insert (registration_document r) db.table_wal_user_registrations in
      (record db { table_wal_user_registrations = t }, rt)

  abbrev pub read_registration : Document → UserRegistration
  read_registration d = record {
    register_id = m.read_utf8 "user_id" d;
    user_ip = m.read_utf8 "user_ip" d;
    user_pid = m.read_int32 "user_pid" d;
    registered_at_date_time = m.read_utf8 "registered_at_time_millisec" d;
  }

  unfoldable pub get_user_registrations : Database m → List UserRegistration
  get_user_registrations db =
      map read_registration (m.find everything db.table_wal_user_registrations)

  unfoldable pub remove_user_registration : String → Database m → Database m
  remove_user_registration id db =
      let query =
        if str_eq all_registration_ids id then everything else equals "user_id" (utf8 id) in
      let (t, result) = m.remove query db.table_wal_user_registrations in
      record db { table_wal_user_registrations = t }
