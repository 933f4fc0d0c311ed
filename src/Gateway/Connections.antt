-- ===== src/Gateway/Connections.antt =====
-- communication/communication_gateway_facade.cpp: making connections, init, shutdown and the turns of
-- the thread.
use microservice_common.Base.{
  ℕ, suc, ◌-◌, ◌/◌, ◌^◌, String, Bool, true, false, not, List, [], ◌∷◌, ◌++◌, Option, none, some,
  length, is_empty, map, filter, if◌then◌else◌,
}
use microservice_common.Base.Int.{ℤ, pos, negsuc}
use microservice_common.Base.Words.{to_int32}
use microservice_common.Common.Outcome.{Outcome, returned, undefined, asserting, ◌>>=◌}
use microservice_common.Database.State.{find_by_id}
use microservice_common.Gateway.{
  CommandFactory, Gateway, Network, NetworkKind, shell, webserver, amqp_client, amqp_controller,
  websocket_server, objrepr_listener, http_client, ShellSettings, AmqpSettings, AmqpRouteParameters,
  client_mode, server_mode, with_size, without_size, callback_requests,
}

-- SConnectParamsShell.
pub record ConnectParamsShell : Type 0 where
  pub client : Bool
  pub with_size_header : Bool
  pub async_client_mode_requests : Bool
  pub async_server_mode : Bool
  pub socket_name : String

-- SConnectParamsAmqp.
pub record ConnectParamsAmqp : Type 0 where
  pub host : String
  pub virt_host : String
  pub port : ℤ
  pub login : String
  pub pass : String
  pub route : AmqpRouteParameters

-- SInitSettings: parameters that are not enabled are `none`. The ports of the two servers and the
-- number of the mirror object stand for their parameters.
pub record InitSettings (Request : Type 0) : Type 0 where
  pub requests_from_wal : List Request
  pub requests_from_config : List Request
  pub async_network : Bool
  pub poll_timeout_millisec : ℤ
  pub params_for_initial_shell : Option ConnectParamsShell
  pub params_for_initial_http_server : Option ℤ
  pub params_for_initial_amqp : Option ConnectParamsAmqp
  pub params_for_initial_websocket_server : Option ℤ
  pub params_for_initial_objrepr : Option ℕ

-- What is outside the facade: whether the `init` of a network made with a number succeeds, what the
-- memory holds for its m_connId, and the build's flags OBJREPR_LIBRARY_EXIST and Astra.
pub record Surroundings : Type 0 where
  pub starts : NetworkKind → ℤ → Bool
  pub memory : NetworkKind → ℤ → ℤ
  pub objrepr_library_exist : Bool
  pub astra : Bool

abbrev pub shell_settings : ConnectParamsShell → ShellSettings
shell_settings p = record {
  shell_mode = if p.client then client_mode else server_mode;
  message_mode = if p.with_size_header then with_size else without_size;
  async_server_mode = p.async_server_mode;
  async_client_mode_requests = p.async_client_mode_requests;
  socket_file_name = p.socket_name;
}

abbrev pub amqp_settings : ConnectParamsAmqp → AmqpSettings
amqp_settings p = record {
  server_host = p.host;
  port = p.port;
  login = p.login;
  pass = p.pass;
  amqp_virtual_host = p.virt_host;
}

module _ (factory : CommandFactory) (w : Surroundings) where
  abbrev pub made : NetworkKind → ℤ → Network
  made k number = record { kind = k; number = number; conn_id = w.memory k number }

  -- getConnectionId, with the number that it returns.
  unfoldable pub get_connection_id : Gateway factory → Gateway factory × ℤ
  get_connection_id g = (
    record g { connection_id_generator = suc g.connection_id_generator },
    pos g.connection_id_generator,
  )

  -- A network with a number of its own that starts is observed and is an external one.
  unfoldable pub add_external : NetworkKind → Gateway factory → Gateway factory × Option Network
  unfolding get_connection_id
  add_external k g =
      let (g2, number) = get_connection_id g in
      if not (w.starts k number) then (g2, none) else (
        record g2 {
          observed = g2.observed ++ made k number ∷ [];
          external_networks = g2.external_networks ++ made k number ∷ [];
        },
        some (made k number),
      )

  abbrev pub is_made : Gateway factory × Option Network → Gateway factory × Bool
  is_made (g, none) = (g, false)
  is_made (g, some n) = (g, true)

  -- The controller is made with the m_connId of the client.
  abbrev pub with_controller :
      AmqpRouteParameters → Gateway factory × Option Network → Gateway factory × Bool
  with_controller route (g, none) = (g, false)
  with_controller route (g, some client) =
      let g2 = record g { initial_amqp_client = some client } in
      let k = amqp_controller route in
      if not (w.starts k client.conn_id)
      then (g2, false)
      else (record g2 { client_networks = g2.client_networks ++ made k client.conn_id ∷ [] }, true)

  abbrev pub keep_listener : Gateway factory × Option Network → Gateway factory × Bool
  keep_listener (g, none) = (g, false)
  keep_listener (g, some n) = (record g { objrepr_listener = some n }, true)

  abbrev pub and_then :
      Gateway factory × Bool → (Gateway factory → Gateway factory × Bool) → Gateway factory × Bool
  and_then (g, false) next = (g, false)
  and_then (g, true) next = next g

  -- The parts of initialConnections.
  abbrev pub connect_shell : Option ConnectParamsShell → Gateway factory → Gateway factory × Bool
  connect_shell none g = (g, true)
  connect_shell (some p) g = is_made (add_external (shell (shell_settings p)) g)

  abbrev pub connect_webserver : Option ℤ → Gateway factory → Gateway factory × Bool
  connect_webserver none g = (g, true)
  connect_webserver (some port) g = is_made (add_external (webserver port) g)

  abbrev pub connect_amqp : Option ConnectParamsAmqp → Gateway factory → Gateway factory × Bool
  connect_amqp none g = (g, true)
  connect_amqp (some p) g = with_controller p.route (add_external (amqp_client (amqp_settings p)) g)

  abbrev pub connect_websocket : Option ℤ → Gateway factory → Gateway factory × Bool
  connect_websocket none g = (g, true)
  connect_websocket (some port) g =
      if w.astra then (g, true) else is_made (add_external (websocket_server port) g)

  abbrev pub connect_objrepr : Option ℕ → Gateway factory → Gateway factory × Bool
  connect_objrepr none g = (g, true)
  connect_objrepr (some id) g =
      if w.objrepr_library_exist
      then keep_listener (add_external (objrepr_listener id) g)
      else (g, true)

  unfoldable pub initial_connections :
      InitSettings factory.Request → Gateway factory → Gateway factory × Bool
  initial_connections s g = and_then (connect_shell s.params_for_initial_shell g) (λ g2.
      and_then (connect_webserver s.params_for_initial_http_server g2) (λ g3.
        and_then (connect_amqp s.params_for_initial_amqp g3) (λ g4.
          and_then (connect_websocket s.params_for_initial_websocket_server g4)
            (connect_objrepr s.params_for_initial_objrepr))))

  -- The shell that it makes is neither observed nor kept.
  unfoldable pub get_new_shell_connection :
      ConnectParamsShell → Gateway factory → Gateway factory × Option Network
  unfolding get_connection_id
  get_new_shell_connection p g =
      let (g2, number) = get_connection_id g in
      let k = shell (shell_settings p) in
      (g2, if not (w.starts k number) then none else some (made k number))

  -- getNewHTTPClientConnection and getFileDownloader do the same.
  unfoldable pub get_new_http_client_connection : Gateway factory → Gateway factory × Network
  unfolding get_connection_id
  get_new_http_client_connection g =
      let (g2, number) = get_connection_id g in
      (
        record g2 { client_networks = g2.client_networks ++ made http_client number ∷ [] },
        made http_client number,
      )

  unfoldable pub get_new_http_server_connection :
      ℤ → Gateway factory → Gateway factory × Option Network
  get_new_http_server_connection port g = add_external (webserver port) g

  unfoldable pub get_new_websocket_server_connection :
      ℤ → Gateway factory → Gateway factory × Option Network
  get_new_websocket_server_connection port g = add_external (websocket_server port) g

  unfoldable pub get_connection : ℤ → Gateway factory → Option Network
  get_connection id g = elim (find_by_id id g.internal_networks_by_id) [
    | some n ↦ some n
    | none ↦ find_by_id id g.external_networks_by_id
  ]

  -- An int32_t divided by a size_t: the number is made a uint64_t first, and the quotient an int32_t.
  abbrev pub as_uint64 : ℤ → ℕ
  as_uint64 (pos n) = n
  as_uint64 (negsuc n) = 2 ^ 64 - suc n

  abbrev pub set_poll_timeouts : ℤ → Gateway factory → Outcome (Gateway factory)
  set_poll_timeouts timeout g =
      if is_empty g.external_networks
      then undefined
      else returned (record g {
        poll_timeouts =
            g.poll_timeouts
            ++ map (λ n. (n, to_int32 (pos (as_uint64 timeout / length g.external_networks))))
                g.external_networks;
      })

  -- The rest of init, after the connections were made or not.
  abbrev pub finish_init :
      InitSettings factory.Request → Gateway factory × Bool → Outcome (Gateway factory × Bool)
  finish_init s (g, false) = returned (g, false)
  finish_init s (g, true) = set_poll_timeouts s.poll_timeout_millisec g >>= λ g2. returned (
    record g2 {
      thread_network_callbacks = if s.async_network then true else g2.thread_network_callbacks;
    },
    true,
  )

  -- `init_derive` is initDerive, which a derived class may override.
  unfoldable pub init :
      (Gateway factory → Gateway factory × Bool)
      → InitSettings factory.Request
      → Gateway factory
      → Outcome (Gateway factory × Bool)
  init init_derive s g =
      let g2 = callback_requests factory s.requests_from_config (
        callback_requests factory s.requests_from_wal
          (record g { async_network = s.async_network })) in
      finish_init s (and_then (initial_connections s g2) init_derive)

  unfoldable pub shutdown : Gateway factory → Gateway factory
  shutdown g = record g {
    shutdown_called = true;
    thread_network_callbacks = false;
    external_networks = [];
    internal_networks = [];
  }

  -- The networks whose callbacks a call of runNetworkCallbacks runs, in order.
  unfoldable pub run_network_callbacks : Gateway factory → Outcome (List Network)
  run_network_callbacks g =
      asserting (not g.async_network) (returned (g.external_networks ++ g.internal_networks))

  -- A turn of the thread, with the networks whose callbacks it runs; `in_use` tells whether an
  -- internal network is connected or is held elsewhere.
  unfoldable pub thread_turn : (Network → Bool) → Gateway factory → Gateway factory × List Network
  thread_turn in_use g =
      (record g { internal_networks = filter in_use g.internal_networks }, g.external_networks)
