-- ===== src/Gateway/Numbers.antt =====
-- The numbers that the facade gives to its networks, and what getConnection finds by them.
use microservice_common.Base.{
  ℕ, suc, ◌+◌, ◌≤◌, ◌≡◌, refl, ap, sym, ◌∙◌, subst, append_nil, append_assoc, Option, none, some,
  Bool, true, false, ◌&&◌, List, [], ◌∷◌, ◌++◌, filter, ◌==◌, if◌then◌else◌, arith, Bool-cases, inl,
  inr,
}
use microservice_common.Base.Int.{ℤ, pos, int_eq}
use microservice_common.Base.Counting.{count, count-append, count-filter}
use microservice_common.Gateway.{
  CommandFactory, Gateway, Network, NetworkKind, amqp_controller, http_client, shell,
  callback_network_request, new_gateway,
}
use microservice_common.Gateway.Connections.{
  ConnectParamsShell, InitSettings, Surroundings, made, shell_settings, get_connection_id,
  add_external, initial_connections, get_new_shell_connection, get_new_http_client_connection,
  get_new_http_server_connection, get_new_websocket_server_connection, shutdown, thread_turn,
}
use microservice_common.Gateway.Steps.{IsKept, initial_connections-kept}

abbrev pub has_number : ℤ → Network → Bool
has_number n x = int_eq n x.number

-- Whether a network is made with a number of its own: a controller is made with another's.
abbrev pub is_own : NetworkKind → Bool
is_own (amqp_controller route) = false
is_own _ = true

module _ {factory : CommandFactory} where
  abbrev pub own_networks : Gateway factory → List Network
  own_networks g = filter (λ x. is_own x.kind) g.client_networks ++ g.external_networks

  -- Of the networks that the facade keeps and the shells that it handed to callers, none has a number
  -- that is still to be given, and no number is that of two.
  pub record IsNumbered (shells : List Network) (g : Gateway factory) : Type 0 where
    pub given :
        (n : ℕ)
        → g.connection_id_generator ≤ n
        → count (has_number (pos n)) (shells ++ own_networks g) ≡ 0
    pub at_most_one : (n : ℕ) → count (has_number (pos n)) (shells ++ own_networks g) ≤ 1

  -- At most the next number is given.
  record Gives (g after : Gateway factory) : Type 0 where
    next : after.connection_id_generator ≡ suc g.connection_id_generator
    counts :
        (n : ℕ)
        → count (has_number (pos n)) (own_networks after)
          ≤ count (has_number (pos n)) (own_networks g)
            + (if n == g.connection_id_generator then 1 else 0)

  Gives-IsNumbered :
      (shells : List Network) (g after : Gateway factory)
      → IsNumbered shells g
      → Gives g after
      → IsNumbered shells after
  Gives-IsNumbered shells g after h s = record {
    given = λ n up. ground (
      arith,
      count-append (has_number (pos n)) shells (own_networks g),
      count-append (has_number (pos n)) shells (own_networks after),
      s.next,
      s.counts n,
      h.given n,
    );
    at_most_one = λ n. ground (
      arith,
      count-append (has_number (pos n)) shells (own_networks g),
      count-append (has_number (pos n)) shells (own_networks after),
      s.counts n,
      h.given n,
      h.at_most_one n,
    );
  }

  -- No number is given.
  record Keeps (g after : Gateway factory) : Type 0 where
    same : after.connection_id_generator ≡ g.connection_id_generator
    fewer :
        (n : ℕ)
        → count (has_number (pos n)) (own_networks after)
          ≤ count (has_number (pos n)) (own_networks g)

  Keeps-IsNumbered :
      (shells : List Network) (g after : Gateway factory)
      → IsNumbered shells g
      → Keeps g after
      → IsNumbered shells after
  Keeps-IsNumbered shells g after h s = record {
    given = λ n up. ground (
      arith,
      count-append (has_number (pos n)) shells (own_networks g),
      count-append (has_number (pos n)) shells (own_networks after),
      s.same,
      s.fewer n,
      h.given n,
    );
    at_most_one = λ n. ground (
      arith,
      count-append (has_number (pos n)) shells (own_networks g),
      count-append (has_number (pos n)) shells (own_networks after),
      s.fewer n,
      h.at_most_one n,
    );
  }

abbrev own_number : ℕ → Network → Bool
own_number n x = is_own x.kind && has_number (pos n) x

count_own :
    (n : ℕ) (clients external : List Network)
    → count (has_number (pos n)) (filter (λ x. is_own x.kind) clients ++ external)
      ≡ count (own_number n) clients + count (has_number (pos n)) external
count_own n clients external =
    count-append (has_number (pos n)) (filter (λ x. is_own x.kind) clients) external
    ∙ ap (λ k. k + count (has_number (pos n)) external)
        (count-filter (has_number (pos n)) (λ x. is_own x.kind) clients)

module _ (factory : CommandFactory) (w : Surroundings) where
  add_external-Gives :
      (k : NetworkKind) (g : Gateway factory) → Gives g (add_external factory w k g).0
  unfolding add_external get_connection_id
  add_external-Gives k g = elim (Bool-cases (w.starts k (pos g.connection_id_generator))) [
    | inl e ↦ simp e (record {
      next = refl;
      counts = λ n. ground (
        arith,
        count-append (has_number (pos n)) (filter (λ x. is_own x.kind) g.client_networks)
            g.external_networks,
        count-append (has_number (pos n)) (filter (λ x. is_own x.kind) g.client_networks)
            (g.external_networks ++ made factory w k (pos g.connection_id_generator) ∷ []),
        count-append (has_number (pos n)) g.external_networks
            (made factory w k (pos g.connection_id_generator) ∷ []),
      );
    })
    | inr e ↦ simp e (record { next = refl; counts = λ n. omega arith })
  ]

  add_external-IsNumbered :
      (shells : List Network) (k : NetworkKind) (g : Gateway factory)
      → IsNumbered shells g
      → IsNumbered shells (add_external factory w k g).0
  add_external-IsNumbered shells k g h = Gives-IsNumbered shells g _ h (add_external-Gives k g)

  numbers-IsKept : (shells : List Network) → IsKept factory w (IsNumbered shells)
  numbers-IsKept shells = record {
    adds = add_external-IsNumbered shells;
    keeps_client = λ c g h. record { given = h.given; at_most_one = h.at_most_one };
    keeps_controller = λ route c g h. Keeps-IsNumbered shells g _ h (record {
      same = refl;
      fewer = λ n. omega (
        arith,
        count_own n g.client_networks g.external_networks,
        count_own n (g.client_networks ++ made factory w (amqp_controller route) c ∷ [])
            g.external_networks,
        count-append (own_number n) g.client_networks
            (made factory w (amqp_controller route) c ∷ []),
      );
    });
    keeps_listener = λ c g h. record { given = h.given; at_most_one = h.at_most_one };
  }

-- The calls that a facade may get; a websocket server takes numbers for its connections.
pub data GatewayCall (factory : CommandFactory) : Type 0 where
  initial_connects : InitSettings factory.Request → GatewayCall factory
  new_shell : ConnectParamsShell → GatewayCall factory
  new_http_client : GatewayCall factory
  new_http_server : ℤ → GatewayCall factory
  new_websocket_server : ℤ → GatewayCall factory
  takes_number : GatewayCall factory
  requests : factory.Request → GatewayCall factory
  turns : (Network → Bool) → GatewayCall factory
  shuts_down : GatewayCall factory

module _ (factory : CommandFactory) (w : Surroundings) where
  abbrev pub run_gateway_call : GatewayCall factory → Gateway factory → Gateway factory
  run_gateway_call (initial_connects s) g = (initial_connections factory w s g).0
  run_gateway_call (new_shell p) g = (get_new_shell_connection factory w p g).0
  run_gateway_call new_http_client g = (get_new_http_client_connection factory w g).0
  run_gateway_call (new_http_server port) g = (get_new_http_server_connection factory w port g).0
  run_gateway_call (new_websocket_server port) g =
      (get_new_websocket_server_connection factory w port g).0
  run_gateway_call takes_number g = (get_connection_id factory w g).0
  run_gateway_call (requests r) g = callback_network_request factory r g
  run_gateway_call (turns in_use) g = (thread_turn factory w in_use g).0
  run_gateway_call shuts_down g = shutdown factory w g

  abbrev pub run_gateway_calls : List (GatewayCall factory) → Gateway factory → Gateway factory
  run_gateway_calls [] g = g
  run_gateway_calls (c ∷ cs) g = run_gateway_calls cs (run_gateway_call c g)

  abbrev given_list : Option Network → List Network
  given_list none = []
  given_list (some x) = x ∷ []

  -- The shell that a call hands to its caller, who keeps it.
  abbrev pub shell_given : GatewayCall factory → Gateway factory → List Network
  shell_given (new_shell p) g = given_list (get_new_shell_connection factory w p g).1
  shell_given _ g = []

  abbrev pub shells_given : List (GatewayCall factory) → Gateway factory → List Network
  shells_given [] g = []
  shells_given (c ∷ cs) g = shell_given c g ++ shells_given cs (run_gateway_call c g)

  no_shell :
      (shells : List Network) (g : Gateway factory)
      → IsNumbered shells g
      → IsNumbered (shells ++ []) g
  no_shell shells g h = subst (λ xs. IsNumbered xs g) (sym (append_nil shells)) h

  run_gateway_call-IsNumbered :
      (shells : List Network) (c : GatewayCall factory) (g : Gateway factory)
      → IsNumbered shells g
      → IsNumbered (shells ++ shell_given c g) (run_gateway_call c g)
  unfolding get_new_shell_connection get_new_http_client_connection get_new_http_server_connection
      get_new_websocket_server_connection get_connection_id callback_network_request thread_turn
      shutdown
  run_gateway_call-IsNumbered shells (initial_connects s) g h = no_shell shells _ (
      initial_connections-kept factory w (IsNumbered shells) (numbers-IsKept factory w shells) s g
        h)
  run_gateway_call-IsNumbered shells (new_shell p) g h =
      let k = shell (shell_settings p) in
      let own = own_networks g in
      let x = made factory w k (pos g.connection_id_generator) in
      elim (Bool-cases (w.starts k (pos g.connection_id_generator))) [
        | inl e ↦ simp e (record {
          given = λ n up. ground (
            arith,
            h.given n,
            count-append (has_number (pos n)) shells own,
            count-append (has_number (pos n)) (shells ++ x ∷ []) own,
            count-append (has_number (pos n)) shells (x ∷ []),
          );
          at_most_one = λ n. ground (
            arith,
            h.given n,
            h.at_most_one n,
            count-append (has_number (pos n)) shells own,
            count-append (has_number (pos n)) (shells ++ x ∷ []) own,
            count-append (has_number (pos n)) shells (x ∷ []),
          );
        })
        | inr e ↦ simp e (
            no_shell shells _
              (Gives-IsNumbered shells g _ h (record { next = refl; counts = λ n. omega arith })))
      ]
  run_gateway_call-IsNumbered shells new_http_client g h = no_shell shells _ (
      Gives-IsNumbered shells g _ h (record {
        next = refl;
        counts = λ n. ground (
          arith,
          count_own n g.client_networks g.external_networks,
          count_own n
              (g.client_networks ++ made factory w http_client (pos g.connection_id_generator) ∷ [])
              g.external_networks,
          count-append (own_number n) g.client_networks
              (made factory w http_client (pos g.connection_id_generator) ∷ []),
        );
      }))
  run_gateway_call-IsNumbered shells (new_http_server port) g h =
      no_shell shells _ (add_external-IsNumbered factory w shells _ g h)
  run_gateway_call-IsNumbered shells (new_websocket_server port) g h =
      no_shell shells _ (add_external-IsNumbered factory w shells _ g h)
  run_gateway_call-IsNumbered shells takes_number g h =
      no_shell shells _
        (Gives-IsNumbered shells g _ h (record { next = refl; counts = λ n. omega arith }))
  run_gateway_call-IsNumbered shells (requests r) g h =
      no_shell shells _ (record { given = h.given; at_most_one = h.at_most_one })
  run_gateway_call-IsNumbered shells (turns in_use) g h =
      no_shell shells _ (record { given = h.given; at_most_one = h.at_most_one })
  run_gateway_call-IsNumbered shells shuts_down g h = no_shell shells _ (
      Keeps-IsNumbered shells g _ h (record {
        same = refl;
        fewer = λ n. omega (
          arith,
          count_own n g.client_networks g.external_networks,
          count_own n g.client_networks [],
        );
      }))

  run_gateway_calls-kept :
      (shells : List Network) (cs : List (GatewayCall factory)) (g : Gateway factory)
      → IsNumbered shells g
      → IsNumbered (shells ++ shells_given cs g) (run_gateway_calls cs g)
  run_gateway_calls-kept shells [] g h = subst (λ xs. IsNumbered xs g) (sym (append_nil shells)) h
  run_gateway_calls-kept shells (c ∷ cs) g h =
      subst (λ xs. IsNumbered xs (run_gateway_calls cs (run_gateway_call c g)))
        (append_assoc shells (shell_given c g) (shells_given cs (run_gateway_call c g)))
        (run_gateway_calls-kept (shells ++ shell_given c g) cs (run_gateway_call c g)
          (run_gateway_call-IsNumbered shells c g h))

  -- After any calls of a new facade, of the networks that it keeps and that are made with a number
  -- of their own, and of all shells that it handed to callers, no two have the same number, and
  -- none has a number that is still to be given.
  pub run_gateway_calls-IsNumbered :
      (cs : List (GatewayCall factory)) (s : factory.State)
      → IsNumbered
          (shells_given cs (new_gateway factory s))
          (run_gateway_calls cs (new_gateway factory s))
  run_gateway_calls-IsNumbered cs s =
      run_gateway_calls-kept [] cs (new_gateway factory s)
        (record { given = λ n up. refl; at_most_one = λ n. omega arith })
