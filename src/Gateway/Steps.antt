-- ===== src/Gateway/Steps.antt =====
-- What holds through initialConnections of communication/communication_gateway_facade.cpp if it holds
-- through each of its changes.
use microservice_common.Base.{
  ℕ, Bool, true, false, [], ◌∷◌, ◌++◌, Option, none, some, Bool-cases, inl, inr, if◌then◌else◌,
}
use microservice_common.Base.Int.{ℤ}
use microservice_common.Gateway.{
  CommandFactory, Gateway, Network, NetworkKind, amqp_controller, AmqpRouteParameters, shell,
  webserver, amqp_client, websocket_server, objrepr_listener,
}
use microservice_common.Gateway.Connections.{
  InitSettings, Surroundings, made, add_external, ConnectParamsShell, ConnectParamsAmqp, is_made,
  with_controller, keep_listener, and_then, connect_shell, connect_webserver, connect_amqp,
  connect_websocket, connect_objrepr, initial_connections, shell_settings, amqp_settings,
}

module _ (factory : CommandFactory) (w : Surroundings) where
  pub record IsKept (P : Gateway factory → Type 0) : Type 0 where
    pub adds : (k : NetworkKind) (g : Gateway factory) → P g → P (add_external factory w k g).0
    pub keeps_client :
        (c : Network) (g : Gateway factory) → P g → P (record g { initial_amqp_client = some c })
    pub keeps_controller :
        (route : AmqpRouteParameters) (id : ℤ) (g : Gateway factory)
        → P g
        → P (record g {
          client_networks = g.client_networks ++ made factory w (amqp_controller route) id ∷ [];
        })
    pub keeps_listener :
        (c : Network) (g : Gateway factory) → P g → P (record g { objrepr_listener = some c })

  module _ (P : Gateway factory → Type 0) (kept : IsKept P) where
    is_made-kept : (r : Gateway factory × Option Network) → P r.0 → P (is_made factory w r).0
    is_made-kept (g, none) h = h
    is_made-kept (g, some n) h = h

    keep_listener-kept :
        (r : Gateway factory × Option Network) → P r.0 → P (keep_listener factory w r).0
    keep_listener-kept (g, none) h = h
    keep_listener-kept (g, some n) h = kept.keeps_listener n g h

    with_controller-kept :
        (route : AmqpRouteParameters) (r : Gateway factory × Option Network)
        → P r.0
        → P (with_controller factory w route r).0
    with_controller-kept route (g, none) h = h
    with_controller-kept route (g, some c) h =
        elim (Bool-cases (w.starts (amqp_controller route) c.conn_id)) [
          | inl e ↦ simp e (kept.keeps_controller route c.conn_id _ (kept.keeps_client c g h))
          | inr e ↦ simp e (kept.keeps_client c g h)
        ]

    and_then-kept :
        (r : Gateway factory × Bool) (next : Gateway factory → Gateway factory × Bool)
        → ((g : Gateway factory) → P g → P (next g).0)
        → P r.0
        → P (and_then factory w r next).0
    and_then-kept (g, false) next f h = h
    and_then-kept (g, true) next f h = f g h

    connect_shell-kept :
        (o : Option ConnectParamsShell) (g : Gateway factory)
        → P g
        → P (connect_shell factory w o g).0
    connect_shell-kept none g h = h
    connect_shell-kept (some p) g h =
        is_made-kept (add_external factory w (shell (shell_settings p)) g) (kept.adds _ g h)

    connect_webserver-kept :
        (o : Option ℤ) (g : Gateway factory) → P g → P (connect_webserver factory w o g).0
    connect_webserver-kept none g h = h
    connect_webserver-kept (some port) g h =
        is_made-kept (add_external factory w (webserver port) g) (kept.adds _ g h)

    connect_amqp-kept :
        (o : Option ConnectParamsAmqp) (g : Gateway factory)
        → P g
        → P (connect_amqp factory w o g).0
    connect_amqp-kept none g h = h
    connect_amqp-kept (some p) g h =
        with_controller-kept p.route (add_external factory w (amqp_client (amqp_settings p)) g)
          (kept.adds _ g h)

    if-kept : (b : Bool) (r s : Gateway factory × Bool) → P r.0 → P s.0 → P (if b then r else s).0
    if-kept true r s h k = h
    if-kept false r s h k = k

    connect_websocket-kept :
        (o : Option ℤ) (g : Gateway factory) → P g → P (connect_websocket factory w o g).0
    connect_websocket-kept none g h = h
    connect_websocket-kept (some port) g h =
        let r = add_external factory w (websocket_server port) g in
        if-kept w.astra (g, true) (is_made factory w r) h (is_made-kept r (kept.adds _ g h))

    connect_objrepr-kept :
        (o : Option ℕ) (g : Gateway factory) → P g → P (connect_objrepr factory w o g).0
    connect_objrepr-kept none g h = h
    connect_objrepr-kept (some id) g h =
        let r = add_external factory w (objrepr_listener id) g in
        if-kept w.objrepr_library_exist (keep_listener factory w r) (g, true)
          (keep_listener-kept r (kept.adds _ g h)) h

    pub initial_connections-kept :
        (s : InitSettings factory.Request) (g : Gateway factory)
        → P g
        → P (initial_connections factory w s g).0
    unfolding initial_connections
    initial_connections-kept s g h =
        and_then-kept (connect_shell factory w s.params_for_initial_shell g) _
          (λ g2 h2.
            and_then-kept (connect_webserver factory w s.params_for_initial_http_server g2) _
              (λ g3 h3.
                and_then-kept (connect_amqp factory w s.params_for_initial_amqp g3) _
                  (λ g4 h4.
                    and_then-kept
                      (connect_websocket factory w s.params_for_initial_websocket_server g4)
                      (connect_objrepr factory w s.params_for_initial_objrepr)
                      (connect_objrepr-kept s.params_for_initial_objrepr)
                      (connect_websocket-kept s.params_for_initial_websocket_server g4 h4))
                  (connect_amqp-kept s.params_for_initial_amqp g3 h3))
              (connect_webserver-kept s.params_for_initial_http_server g2 h2))
          (connect_shell-kept s.params_for_initial_shell g h)
