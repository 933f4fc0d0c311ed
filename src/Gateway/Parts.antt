-- ===== src/Gateway/Parts.antt =====
-- What the settings of communication/communication_gateway_facade.cpp ask initialConnections for, told
-- apart from how it is done: the networks in their order, with the numbers from the first one on.
use microservice_common.Base.{
  ℕ, suc, ◌+◌, ◌≡◌, refl, ap, sym, ◌∙◌, Bool, true, false, ◌&&◌, List, [], ◌∷◌, ◌++◌, Option, none,
  some, length, if◌then◌else◌, arith, Bool-cases, inl, inr, append_nil, append_assoc, length-append,
}
use microservice_common.Base.Int.{ℤ, pos}
use microservice_common.Gateway.{
  CommandFactory, Gateway, Network, NetworkKind, AmqpRouteParameters, shell, webserver, amqp_client,
  amqp_controller, websocket_server, objrepr_listener,
}
use microservice_common.Gateway.Connections.{
  InitSettings, Surroundings, add_external, get_connection_id, is_made, with_controller,
  keep_listener, and_then, connect_shell, connect_webserver, connect_amqp, connect_websocket,
  connect_objrepr, initial_connections, shell_settings, amqp_settings, ConnectParamsShell,
  ConnectParamsAmqp,
}

-- A network, or one with a controller over it.
pub data Part : Type 0 where
  plain : NetworkKind → Part
  controlled : AmqpRouteParameters → NetworkKind → Part

abbrev pub kind_of : Part → NetworkKind
kind_of (plain k) = k
kind_of (controlled route k) = k

abbrev pub enabled {ℓ} : {A : Type ℓ} → (A → Part) → Option A → List Part
enabled f none = []
enabled f (some a) = f a ∷ []

-- The parts that are enabled and that the build has.
abbrev pub parts : {Request : Type 0} → Surroundings → InitSettings Request → List Part
parts w s =
    enabled (λ p. plain (shell (shell_settings p))) s.params_for_initial_shell
    ++ (enabled (λ port. plain (webserver port)) s.params_for_initial_http_server
        ++ (enabled (λ p. controlled p.route (amqp_client (amqp_settings p)))
              s.params_for_initial_amqp
            ++ ((if w.astra
                  then []
                  else enabled (λ port. plain (websocket_server port))
                      s.params_for_initial_websocket_server)
                ++ (if w.objrepr_library_exist
                    then enabled (λ id. plain (objrepr_listener id)) s.params_for_initial_objrepr
                    else []))))

plus_none : (n : ℕ) → n ≡ n + 0
plus_none n = omega arith

plus_one : (n k : ℕ) → suc n + k ≡ n + suc k
plus_one n k = omega arith

module _ (w : Surroundings) where
  abbrev pub part_starts : ℕ → Part → Bool
  part_starts n (plain k) = w.starts k (pos n)
  part_starts n (controlled route k) =
      w.starts k (pos n) && w.starts (amqp_controller route) (w.memory k (pos n))

  -- Whether each part starts, the first one with this number.
  abbrev pub all_start : ℕ → List Part → Bool
  all_start n [] = true
  all_start n (p ∷ ps) = part_starts n p && all_start (suc n) ps

  abbrev pub networks_from : ℕ → List Part → List Network
  networks_from n [] = []
  networks_from n (p ∷ ps) =
      record { kind = kind_of p; number = pos n; conn_id = w.memory (kind_of p) (pos n) }
      ∷ networks_from (suc n) ps

  all_start-append :
      (n : ℕ) (ps qs : List Part)
      → all_start n (ps ++ qs) ≡ (all_start n ps && all_start (n + length ps) qs)
  all_start-append n [] qs = ap (λ k. all_start k qs) (plus_none n)
  all_start-append n (p ∷ ps) qs =
      ap (λ b. part_starts n p && b)
        (all_start-append (suc n) ps qs
          ∙ ap (λ k. all_start (suc n) ps && all_start k qs) (plus_one n (length ps)))
      ∙ ground arith

  networks_from-append :
      (n : ℕ) (ps qs : List Part)
      → networks_from n (ps ++ qs) ≡ networks_from n ps ++ networks_from (n + length ps) qs
  networks_from-append n [] qs = ap (λ k. networks_from k qs) (plus_none n)
  networks_from-append n (p ∷ ps) qs =
      ap (λ xs. networks_from n (p ∷ []) ++ xs)
        (networks_from-append (suc n) ps qs
          ∙ ap (λ k. networks_from (suc n) ps ++ networks_from k qs) (plus_one n (length ps)))

module _ (factory : CommandFactory) (w : Surroundings) where
  -- A step of initialConnections did these parts.
  pub record Connected (ps : List Part) (g : Gateway factory) (r : Gateway factory × Bool)
      : Type 0 where
    pub started : r.1 ≡ all_start w g.connection_id_generator ps
    pub next : r.1 ≡ true → r.0.connection_id_generator ≡ g.connection_id_generator + length ps
    pub networks :
        r.1 ≡ true
        → r.0.external_networks
          ≡ g.external_networks ++ networks_from w g.connection_id_generator ps
    pub observers :
        r.1 ≡ true → r.0.observed ≡ g.observed ++ networks_from w g.connection_id_generator ps

  nothing-Connected : (g : Gateway factory) → Connected [] g (g, true)
  nothing-Connected g = record {
    started = refl;
    next = λ e. omega arith;
    networks = λ e. sym (append_nil g.external_networks);
    observers = λ e. sym (append_nil g.observed);
  }

  is_made-Connected :
      (k : NetworkKind) (g : Gateway factory)
      → Connected (plain k ∷ []) g (is_made factory w (add_external factory w k g))
  unfolding add_external get_connection_id
  is_made-Connected k g = elim (Bool-cases (w.starts k (pos g.connection_id_generator))) [
    | inl e ↦ simp e (record {
      started = sym (ap (λ b. b && true) e);
      next = λ f. omega arith;
      networks = λ f. refl;
      observers = λ f. refl;
    })
    | inr e ↦ simp e (record {
      started = sym (ap (λ b. b && true) e);
      next = λ f. cc;
      networks = λ f. cc;
      observers = λ f. cc;
    })
  ]

  keep_listener-Connected :
      (k : NetworkKind) (g : Gateway factory)
      → Connected (plain k ∷ []) g (keep_listener factory w (add_external factory w k g))
  unfolding add_external get_connection_id
  keep_listener-Connected k g = elim (Bool-cases (w.starts k (pos g.connection_id_generator))) [
    | inl e ↦ simp e (record {
      started = sym (ap (λ b. b && true) e);
      next = λ f. omega arith;
      networks = λ f. refl;
      observers = λ f. refl;
    })
    | inr e ↦ simp e (record {
      started = sym (ap (λ b. b && true) e);
      next = λ f. cc;
      networks = λ f. cc;
      observers = λ f. cc;
    })
  ]

  with_controller-Connected :
      (route : AmqpRouteParameters) (k : NetworkKind) (g : Gateway factory)
      → Connected
          (controlled route k ∷ [])
          g
          (with_controller factory w route (add_external factory w k g))
  unfolding add_external get_connection_id
  with_controller-Connected route k g =
      let n = g.connection_id_generator in
      elim (Bool-cases (w.starts k (pos n))) [
        | inl e ↦ elim (Bool-cases (w.starts (amqp_controller route) (w.memory k (pos n)))) [
          | inl f ↦
              simp (e, f)
                (record {
                  started = sym (
                      ap (λ b. (b && w.starts (amqp_controller route) (w.memory k (pos n))) && true)
                        e
                      ∙ ap (λ b. (true && b) && true) f);
                  next = λ h. omega arith;
                  networks = λ h. refl;
                  observers = λ h. refl;
                })
          | inr f ↦
              simp (e, f)
                (record {
                  started = sym (
                      ap (λ b. (b && w.starts (amqp_controller route) (w.memory k (pos n))) && true)
                        e
                      ∙ ap (λ b. (true && b) && true) f);
                  next = λ h. cc;
                  networks = λ h. cc;
                  observers = λ h. cc;
                })
        ]
        | inr e ↦ simp e (record {
          started =
              sym
                (ap (λ b. (b && w.starts (amqp_controller route) (w.memory k (pos n))) && true) e);
          next = λ h. cc;
          networks = λ h. cc;
          observers = λ h. cc;
        })
      ]

  and_then-Connected :
      (ps qs : List Part) (g : Gateway factory) (r : Gateway factory × Bool)
      (f : Gateway factory → Gateway factory × Bool)
      → ((g2 : Gateway factory) → Connected qs g2 (f g2))
      → Connected ps g r
      → Connected (ps ++ qs) g (and_then factory w r f)
  and_then-Connected ps qs g (g2, false) f c h = record {
    started =
        ap (λ b. b && all_start w (g.connection_id_generator + length ps) qs) h.started
        ∙ sym (all_start-append w g.connection_id_generator ps qs);
    next = λ e. cc;
    networks = λ e. cc;
    observers = λ e. cc;
  }
  and_then-Connected ps qs g (g2, true) f c h =
      let n = g.connection_id_generator in
      let moved = h.next refl in
      record {
        started =
            (c g2).started
            ∙ ap (λ k. all_start w k qs) moved
            ∙ ap (λ b. b && all_start w (n + length ps) qs) h.started
            ∙ sym (all_start-append w n ps qs);
        next =
            λ e. (c g2).next e ∙ ap (λ k. k + length qs) moved ∙ omega (arith, length-append ps qs);
        networks = λ e.
            (c g2).networks e
            ∙ ap (λ k. g2.external_networks ++ networks_from w k qs) moved
            ∙ ap (λ xs. xs ++ networks_from w (n + length ps) qs) (h.networks refl)
            ∙ append_assoc g.external_networks (networks_from w n ps) _
            ∙ ap (λ xs. g.external_networks ++ xs) (sym (networks_from-append w n ps qs));
        observers = λ e.
            (c g2).observers e
            ∙ ap (λ k. g2.observed ++ networks_from w k qs) moved
            ∙ ap (λ xs. xs ++ networks_from w (n + length ps) qs) (h.observers refl)
            ∙ append_assoc g.observed (networks_from w n ps) _
            ∙ ap (λ xs. g.observed ++ xs) (sym (networks_from-append w n ps qs));
      }

  connect_shell-Connected :
      (o : Option ConnectParamsShell) (g : Gateway factory)
      → Connected
          (enabled (λ p. plain (shell (shell_settings p))) o)
          g
          (connect_shell factory w o g)
  connect_shell-Connected none g = nothing-Connected g
  connect_shell-Connected (some p) g = is_made-Connected (shell (shell_settings p)) g

  connect_webserver-Connected :
      (o : Option ℤ) (g : Gateway factory)
      → Connected (enabled (λ port. plain (webserver port)) o) g (connect_webserver factory w o g)
  connect_webserver-Connected none g = nothing-Connected g
  connect_webserver-Connected (some port) g = is_made-Connected (webserver port) g

  connect_amqp-Connected :
      (o : Option ConnectParamsAmqp) (g : Gateway factory)
      → Connected
          (enabled (λ p. controlled p.route (amqp_client (amqp_settings p))) o)
          g
          (connect_amqp factory w o g)
  connect_amqp-Connected none g = nothing-Connected g
  connect_amqp-Connected (some p) g =
      with_controller-Connected p.route (amqp_client (amqp_settings p)) g

  connect_websocket-Connected :
      (o : Option ℤ) (g : Gateway factory)
      → Connected
          (if w.astra then [] else enabled (λ port. plain (websocket_server port)) o)
          g
          (connect_websocket factory w o g)
  connect_websocket-Connected none g = elim (Bool-cases w.astra) [
    | inl e ↦ simp e (nothing-Connected g)
    | inr e ↦ simp e (nothing-Connected g)
  ]
  connect_websocket-Connected (some port) g = elim (Bool-cases w.astra) [
    | inl e ↦ simp e (nothing-Connected g)
    | inr e ↦ simp e (is_made-Connected (websocket_server port) g)
  ]

  connect_objrepr-Connected :
      (o : Option ℕ) (g : Gateway factory)
      → Connected
          (if w.objrepr_library_exist then enabled (λ id. plain (objrepr_listener id)) o else [])
          g
          (connect_objrepr factory w o g)
  connect_objrepr-Connected none g = elim (Bool-cases w.objrepr_library_exist) [
    | inl e ↦ simp e (nothing-Connected g)
    | inr e ↦ simp e (nothing-Connected g)
  ]
  connect_objrepr-Connected (some id) g = elim (Bool-cases w.objrepr_library_exist) [
    | inl e ↦ simp e (keep_listener-Connected (objrepr_listener id) g)
    | inr e ↦ simp e (nothing-Connected g)
  ]

  pub initial_connections-Connected :
      (s : InitSettings factory.Request) (g : Gateway factory)
      → Connected (parts w s) g (initial_connections factory w s g)
  unfolding initial_connections
  initial_connections-Connected s g =
      and_then-Connected _ _ g _ _
        (λ g2.
          and_then-Connected _ _ g2 _ _
            (λ g3.
              and_then-Connected _ _ g3 _ _
                (λ g4.
                  and_then-Connected _ _ g4 _ _
                    (λ g5. connect_objrepr-Connected s.params_for_initial_objrepr g5)
                    (connect_websocket-Connected s.params_for_initial_websocket_server g4))
                (connect_amqp-Connected s.params_for_initial_amqp g3))
            (connect_webserver-Connected s.params_for_initial_http_server g2))
        (connect_shell-Connected s.params_for_initial_shell g)
