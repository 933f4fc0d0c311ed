-- ===== src/Tests/Multitask.antt =====
-- system/threaded_multitask_service.cpp at concrete inputs.
use microservice_common.Base.{◌≡◌, refl, false, [], ◌∷◌, ◌++◌, some, any, arith}
use microservice_common.Base.Int.{ℤ, pos, int_eq_iff}
use microservice_common.Common.Outcome.{returned}
use microservice_common.Multitask.{Service, has_id, add_runnable_client}
use microservice_common.Multitask.Clients.{IsNumbered, add_runnable_client-IsNumbered}

abbrev one_client : Service
one_client = record {
  clients = (pos 1, 64) ∷ [];
  client_id_generator = pos 1;
  shutdown_called = false;
  calls = [];
}

one_client-IsNumbered : IsNumbered one_client
one_client-IsNumbered = record {
  positive = omega arith;
  given = λ id above. ground (arith, int_eq_iff id (pos 1));
  at_most_one = λ id. ground arith;
}

add_runnable_client-IsNumbered_example :
    (after : Service) × (id : ℤ) × (add_runnable_client (some 72) one_client ≡ returned (after, id))
    × IsNumbered after
    × (after.clients ≡ one_client.clients ++ (id, 72) ∷ [])
    × (any (has_id id) one_client.clients ≡ false)
add_runnable_client-IsNumbered_example =
    add_runnable_client-IsNumbered 72 one_client one_client-IsNumbered refl
