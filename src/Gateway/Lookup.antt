-- ===== src/Gateway/Lookup.antt =====
-- What getConnection of the facade finds.
use microservice_common.Base.{◌≡◌, refl, List, [], ◌∷◌, none, Bool-cases, inl, inr}
use microservice_common.Base.Int.{ℤ, pos}
use microservice_common.Gateway.{
  CommandFactory, Gateway, NetworkKind, webserver, websocket_server, callback_network_request,
  new_gateway,
}
use microservice_common.Gateway.Connections.{
  Surroundings, add_external, get_connection_id, get_new_shell_connection,
  get_new_http_client_connection, get_new_http_server_connection,
  get_new_websocket_server_connection, get_connection, shutdown, thread_turn,
}
use microservice_common.Gateway.Steps.{IsKept, initial_connections-kept}
use microservice_common.Gateway.Numbers.{
  GatewayCall, initial_connects, new_shell, new_http_client, new_http_server, new_websocket_server,
  takes_number, requests, turns, shuts_down, run_gateway_call, run_gateway_calls,
}

module _ (factory : CommandFactory) (w : Surroundings) where
  abbrev IsUnmapped : Gateway factory → Type 0
  IsUnmapped g = (g.internal_networks_by_id ≡ []) × (g.external_networks_by_id ≡ [])

  add_external-IsUnmapped :
      (k : NetworkKind) (g : Gateway factory)
      → IsUnmapped g
      → IsUnmapped (add_external factory w k g).0
  unfolding add_external get_connection_id
  add_external-IsUnmapped k g h = elim (Bool-cases (w.starts k (pos g.connection_id_generator))) [
    | inl e ↦ simp e h
    | inr e ↦ simp e h
  ]

  IsUnmapped-IsKept : IsKept factory w IsUnmapped
  IsUnmapped-IsKept = record {
    adds = add_external-IsUnmapped;
    keeps_client = λ c g h. h;
    keeps_controller = λ route id g h. h;
    keeps_listener = λ c g h. h;
  }

  run_gateway_call-IsUnmapped :
      (c : GatewayCall factory) (g : Gateway factory)
      → IsUnmapped g
      → IsUnmapped (run_gateway_call factory w c g)
  unfolding get_new_shell_connection get_new_http_client_connection get_new_http_server_connection
      get_new_websocket_server_connection get_connection_id callback_network_request thread_turn
      shutdown
  run_gateway_call-IsUnmapped (initial_connects s) g h =
      initial_connections-kept factory w IsUnmapped IsUnmapped-IsKept s g h
  run_gateway_call-IsUnmapped (new_shell p) g h = h
  run_gateway_call-IsUnmapped new_http_client g h = h
  run_gateway_call-IsUnmapped (new_http_server port) g h =
      add_external-IsUnmapped (webserver port) g h
  run_gateway_call-IsUnmapped (new_websocket_server port) g h =
      add_external-IsUnmapped (websocket_server port) g h
  run_gateway_call-IsUnmapped takes_number g h = h
  run_gateway_call-IsUnmapped (requests r) g h = h
  run_gateway_call-IsUnmapped (turns in_use) g h = h
  run_gateway_call-IsUnmapped shuts_down g h = h

  run_gateway_calls-IsUnmapped :
      (cs : List (GatewayCall factory)) (g : Gateway factory)
      → IsUnmapped g
      → IsUnmapped (run_gateway_calls factory w cs g)
  run_gateway_calls-IsUnmapped [] g h = h
  run_gateway_calls-IsUnmapped (c ∷ cs) g h =
      run_gateway_calls-IsUnmapped cs _ (run_gateway_call-IsUnmapped c g h)

  get_connection-none :
      (id : ℤ) (g : Gateway factory) → IsUnmapped g → get_connection factory w id g ≡ none
  unfolding get_connection
  get_connection-none id g h = rw (h.0, h.1) refl

  -- After any calls of a new facade, getConnection finds no network, whatever number it is asked
  -- for.
  pub get_connection-run_gateway_calls :
      (cs : List (GatewayCall factory)) (s : factory.State) (id : ℤ)
      → get_connection factory w id (run_gateway_calls factory w cs (new_gateway factory s)) ≡ none
  get_connection-run_gateway_calls cs s id =
      get_connection-none id _
        (run_gateway_calls-IsUnmapped cs (new_gateway factory s) (refl, refl))
