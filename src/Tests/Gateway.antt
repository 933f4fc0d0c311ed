-- ===== src/Tests/Gateway.antt =====
-- communication/communication_gateway_facade.cpp and communication/shell.cpp at concrete inputs.
use microservice_common.Base.{
  ℕ, zero, suc, ◌≤◌, ◌<◌, ltb, ap, ◌≡◌, refl, true, false, List, [], ◌∷◌, ◌++◌, Option, none, some,
  ◌==◌, if◌then◌else◌, length, arith, ◌+◌,
}
use microservice_common.Base.Int.{pos}
use microservice_common.Common.Outcome.{returned}
use microservice_common.Gateway.{CommandFactory, Gateway, new_gateway}
use microservice_common.Gateway.Connections.{
  ConnectParamsShell, InitSettings, Surroundings, init, get_connection,
}
use microservice_common.Gateway.Numbers.{
  GatewayCall, initial_connects, new_shell, new_http_client, takes_number, new_http_server, turns,
  run_gateway_calls, IsNumbered, run_gateway_calls-IsNumbered, shells_given,
}
use microservice_common.Gateway.Order.{
  QueueCall, arrives, takes, run_queue_calls, arrivals, created, run_queue_calls-in_order,
}
use microservice_common.Gateway.Parts.{parts, networks_from}
use microservice_common.Gateway.Starting.{InitEnds, init-InitEnds}
use microservice_common.Gateway.Lookup.{get_connection-run_gateway_calls}
use microservice_common.Shell.{Answers, new_server, shutdown}
use microservice_common.Shell.Server.{run_turns, shutdown-run_turns}
use microservice_common.Shell.Framing.{Socket, take, drop, send_with_size, append_pieces}
use microservice_common.Shell.Frames.{Carries, send_all, receive_all, receive_all-send_all}
use microservice_common.Shell.Pieces.{append_pieces-two}

-- A factory that makes a command of every request but 0 and counts them.
abbrev command_of : ℕ → Option ℕ
command_of n = if n == 0 then none else some n

abbrev factory : CommandFactory
factory = record {
  Request = ℕ;
  Command = ℕ;
  State = ℕ;
  create_command = λ r s. (s + 1, command_of r);
}

abbrev surroundings : Surroundings
surroundings = record {
  starts = λ k n. true;
  memory = λ k n. pos 77;
  objrepr_library_exist = false;
  astra = false;
}

abbrev shell_params : ConnectParamsShell
shell_params = record {
  client = false;
  with_size_header = false;
  async_client_mode_requests = false;
  async_server_mode = false;
  socket_name = "/tmp/shell";
}

abbrev settings : InitSettings ℕ
settings = record {
  requests_from_wal = 3 ∷ 0 ∷ [];
  requests_from_config = 4 ∷ [];
  async_network = true;
  poll_timeout_millisec = pos 25;
  params_for_initial_shell = some shell_params;
  params_for_initial_http_server = some (pos 8080);
  params_for_initial_amqp = none;
  params_for_initial_websocket_server = none;
  params_for_initial_objrepr = some 5;
}

abbrev gateway_calls : List (GatewayCall factory)
gateway_calls =
    initial_connects settings
    ∷ new_shell shell_params
    ∷ takes_number
    ∷ new_http_client
    ∷ new_http_server (pos 80)
    ∷ turns (λ n. false)
    ∷ []

run_gateway_calls-IsNumbered_example :
    IsNumbered
      (shells_given factory surroundings gateway_calls (new_gateway factory 0))
      (run_gateway_calls factory surroundings gateway_calls (new_gateway factory 0))
run_gateway_calls-IsNumbered_example =
    run_gateway_calls-IsNumbered factory surroundings gateway_calls 0

get_connection-run_gateway_calls_example :
    get_connection factory surroundings
      (pos 0)
      (run_gateway_calls factory surroundings gateway_calls (new_gateway factory 0))
    ≡ none
get_connection-run_gateway_calls_example =
    get_connection-run_gateway_calls factory surroundings gateway_calls 0 (pos 0)

abbrev queue_calls : List (QueueCall factory)
queue_calls = takes ∷ arrives 3 ∷ arrives 0 ∷ takes ∷ arrives 4 ∷ []

run_queue_calls-in_order_example :
    (after : Gateway factory) × (taken : List ℕ) × (run_queue_calls factory queue_calls
        (new_gateway factory 0)
        []
      ≡ returned (after, taken))
    × (taken ++ after.arrived_commands ≡ created factory (arrivals factory queue_calls) 0)
run_queue_calls-in_order_example =
    run_queue_calls-in_order factory queue_calls (new_gateway factory 0) []

init-InitEnds_example :
    InitEnds true
      (networks_from surroundings 0 (parts surroundings settings))
      (3 ∷ 4 ∷ [])
      25
      true
      (init factory surroundings (λ g. (g, true)) settings (new_gateway factory 0))
init-InitEnds_example = init-InitEnds factory surroundings settings 25 0 refl (omega arith)

abbrev shell_turns : List Answers
shell_turns =
    record { ready = true; accepts = some 9; receives = some (1 ∷ []) }
    ∷ record { ready = true; accepts = none; receives = some [] }
    ∷ []

shutdown-run_turns_example :
    (shutdown (run_turns shell_turns (new_server 5))).closed
    ≡ (run_turns shell_turns (new_server 5)).accepted
      ++ ((if (run_turns shell_turns (new_server 5)).client_socket_dscr == 0 then 0 ∷ [] else [])
          ++ 5 ∷ [])
shutdown-run_turns_example = shutdown-run_turns shell_turns 5 (refl, (tt, tt))

-- A stream in memory that gives back what is sent, at most four bytes at a time.
abbrev at_most_four : ℕ → ℕ
at_most_four n = if ltb n 4 then n else 4

abbrev loopback : Socket
loopback = record {
  Stream = List ℕ;
  stack = 1000;
  send = λ bs t. t ++ bs;
  recv = λ n t. (drop (at_most_four n) t, some (take (at_most_four n) t));
}

take_no_more : (k : ℕ) (t : List ℕ) → length (take k t) ≤ k
take_no_more zero t = omega arith
take_no_more (suc k) [] = omega arith
take_no_more (suc k) (x ∷ t) = omega (arith, take_no_more k t)

take_pending : (k : ℕ) (t : List ℕ) → length (take k t) ≤ length t
take_pending zero t = omega arith
take_pending (suc k) [] = omega arith
take_pending (suc k) (x ∷ t) = omega (arith, take_pending k t)

take_some : (k : ℕ) (t : List ℕ) → 0 < k → 0 < length t → 0 < length (take k t)
take_some zero t h i = absurd (omega (arith, h))
take_some (suc k) [] h i = absurd (omega (arith, i))
take_some (suc k) (x ∷ t) h i = omega arith

take_given : (k : ℕ) (t : List ℕ) → take k t ≡ take (length (take k t)) t
take_given zero t = refl
take_given (suc k) [] = refl
take_given (suc k) (x ∷ t) = ap (◌∷◌ x) (take_given k t)

drop_given : (k : ℕ) (t : List ℕ) → drop k t ≡ drop (length (take k t)) t
drop_given zero t = refl
drop_given (suc k) [] = refl
drop_given (suc k) (x ∷ t) = drop_given k t

abbrev loopback-Carries : Carries loopback
loopback-Carries = record {
  pending = λ t. t;
  given = λ n t. length (take (at_most_four n) t);
  given-asked = λ n t. ground (arith, take_no_more (at_most_four n) t);
  given-pending = λ n t. take_pending (at_most_four n) t;
  given-some = λ n t h i. take_some (at_most_four n) t (ground arith) i;
  send_lem = λ bs t. refl;
  recv_lem = λ n t. ap some (take_given (at_most_four n) t);
  recv_rest = λ n t. drop_given (at_most_four n) t;
}

abbrev messages : List (List ℕ)
messages = (1 ∷ 2 ∷ []) ∷ [] ∷ []

-- The last message comes short.
receive_all-send_all_example :
    receive_all loopback loopback-Carries
      (messages ++ (5 ∷ 6 ∷ 7 ∷ 8 ∷ 9 ∷ []) ∷ [])
      (send_all loopback loopback-Carries (messages ++ (5 ∷ 6 ∷ 7 ∷ 8 ∷ 9 ∷ []) ∷ []) [])
    ≡ returned (messages ++ (5 ∷ 6 ∷ 7 ∷ 8 ∷ []) ∷ [])
unfolding send_with_size
receive_all-send_all_example =
    receive_all-send_all loopback loopback-Carries messages (5 ∷ 6 ∷ 7 ∷ 8 ∷ 9 ∷ []) []
      ((omega arith, omega arith), ((omega arith, omega arith), tt)) (omega arith, omega arith) refl
      (refl, refl, (refl, refl, refl))

append_pieces-two_example :
    (append_pieces 1 0 (0 ∷ 0 ∷ 0 ∷ []) [] (some (7 ∷ []) ∷ []) ≡ returned (some (7 ∷ [])))
    × (text : List ℕ) × (append_pieces 3 0
          (0 ∷ 0 ∷ 0 ∷ [])
          []
          (some (7 ∷ []) ∷ some (8 ∷ 9 ∷ []) ∷ [])
        ≡ returned (some text))
    × (length text ≡ 4)
append_pieces-two_example =
    append_pieces-two (7 ∷ []) (8 ∷ 9 ∷ []) (0 ∷ 0 ∷ 0 ∷ []) (omega arith) (omega arith) refl
