-- ===== src/Multitask.antt =====
-- system/threaded_multitask_service.cpp: ThreadedMultitaskService. A client is the address of an
-- IRunnableDumpToDatabase, and null is `none`. The calls of clients stand beside the data.
pub mod Clients
use microservice_common.Base.{
  ℕ, Bool, true, false, List, [], ◌∷◌, ◌++◌, Option, none, some, any, map, filter, not,
  if◌then◌else◌, str_eq,
}
use microservice_common.Base.Int.{ℤ, pos, negsuc, int_eq, leb_ℤ, suc_ℤ}
use microservice_common.Common.Outcome.{Outcome, returned, undefined}

pub record Service : Type 0 where
  pub clients : List (ℤ × ℕ)
  pub client_id_generator : ℤ
  pub shutdown_called : Bool
  pub calls : List ℕ

abbrev pub new_service : Service
new_service = record {
  clients = [];
  client_id_generator = pos 0;
  shutdown_called = false;
  calls = [];
}

abbrev pub invalid_client_id : ℤ
invalid_client_id = negsuc 0

-- The last value of an int32, which a TRunnableClientId is.
abbrev pub max_client_id : ℤ
max_client_id = pos 2147483647

abbrev pub has_id : ℤ → ℤ × ℕ → Bool
has_id id c = int_eq id c.0

-- `insert` of a map keeps what is there under the key.
unfoldable pub insert_client : ℤ → ℕ → List (ℤ × ℕ) → List (ℤ × ℕ)
insert_client id c cs = if any (has_id id) cs then cs else cs ++ (id, c) ∷ []

unfoldable pub add_runnable_client : Option ℕ → Service → Outcome (Service × ℤ)
add_runnable_client none s = returned (s, invalid_client_id)
add_runnable_client (some c) s =
    if int_eq s.client_id_generator max_client_id
    then undefined
    else (let id = suc_ℤ s.client_id_generator in
        returned
          (record s { client_id_generator = id; clients = insert_client id c s.clients }, id))

unfoldable pub remove_dump_to_database_client : ℤ → Service → Service × Bool
remove_dump_to_database_client id s =
    if leb_ℤ id invalid_client_id
    then (s, false)
    else (if any (has_id id) s.clients
        then (record s { clients = filter (λ c. not (has_id id c)) s.clients }, true)
        else (s, false))

-- A turn of the inner loop of threadDumpToDatabase; the order of a hash map is not promised.
unfoldable pub dump_turn : Service → Service
dump_turn s = record s { calls = s.calls ++ map (λ c. c.1) s.clients }
