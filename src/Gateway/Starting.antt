-- ===== src/Gateway/Starting.antt =====
-- What init of the facade ends in, and what getConnection finds.
use microservice_common.Base.{
  ℕ, suc, ◌+◌, ◌*◌, ◌/◌, ◌^◌, ◌≤◌, ◌<◌, ◌≡◌, refl, ap, sym, ◌∙◌, Bool, true, false, List, [], ◌∷◌,
  ◌++◌, Option, none, some, length, map, if◌then◌else◌, arith, Bool-cases, inl, inr,
}
use microservice_common.Base.Int.{ℤ, pos, pos_part}
use microservice_common.Base.Words.{to_int32, to_int32_small}
use microservice_common.Common.Outcome.{Outcome, returned, undefined}
use microservice_common.Gateway.{
  CommandFactory, Gateway, Network, NetworkKind, callback_network_request, callback_requests,
  new_gateway,
}
use microservice_common.Gateway.Connections.{
  InitSettings, Surroundings, add_external, get_connection_id, and_then, finish_init,
  initial_connections, init,
}
use microservice_common.Gateway.Parts.{
  Connected, parts, all_start, networks_from, initial_connections-Connected,
}
use microservice_common.Gateway.Steps.{IsKept, initial_connections-kept}
use microservice_common.Gateway.Order.{before_all, created, callback_requests-created}

-- The time that a turn may wait in all networks together.
abbrev pub total_timeout : List (Network × ℤ) → ℕ
total_timeout [] = 0
total_timeout ((n, t) ∷ ts) = pos_part t + total_timeout ts

total_timeout-map :
    (t : ℕ) (ns : List Network) → total_timeout (map (λ n. (n, pos t)) ns) ≡ length ns * t
total_timeout-map t [] = omega arith
total_timeout-map t (n ∷ ns) = grind (arith, total_timeout-map t ns)

share-le : (t n : ℕ) → suc n * (t / suc n) ≤ t
share-le t n = grind arith

total_timeout-le :
    (t : ℕ) (n : Network) (ns : List Network)
    → total_timeout (map (λ k. (k, pos (t / length (n ∷ ns)))) (n ∷ ns)) ≤ t
total_timeout-le t n ns =
    omega (arith, total_timeout-map (t / suc (length ns)) (n ∷ ns), share-le t (length ns))

share_small : (t k : ℕ) → t < 2 ^ 31 → to_int32 (pos (t / suc k)) ≡ pos (t / suc k)
share_small t k small =
    let less : t / suc k < 2 ^ 31 = grind arith in to_int32_small (t / suc k) less

-- What init does where initDerive is the class's own, by whether every part starts and by the networks
-- that they make.
abbrev pub InitEnds :
    {factory : CommandFactory}
    → Bool
    → List Network
    → List factory.Command
    → ℕ
    → Bool
    → Outcome (Gateway factory × Bool)
    → Type 0
InitEnds {factory} false ns commands t async r =
    (failed : Gateway factory) × (r ≡ returned (failed, false))
InitEnds true [] commands t async r = r ≡ undefined
InitEnds {factory} true (n ∷ ns) commands t async r =
    (after : Gateway factory) × (r ≡ returned (after, true))
    × (after.arrived_commands ≡ commands)
    × (after.external_networks ≡ n ∷ ns)
    × (after.observed ≡ n ∷ ns)
    × (after.poll_timeouts ≡ map (λ x. (x, pos (t / length (n ∷ ns)))) (n ∷ ns))
    × (total_timeout after.poll_timeouts ≤ t)
    × (after.thread_network_callbacks ≡ async)

module _ (factory : CommandFactory) (w : Surroundings) where
  -- Nothing of the queue, of the timeouts and of the thread is touched.
  abbrev Untouched : List factory.Command → Gateway factory → Type 0
  Untouched cs g =
      (g.arrived_commands ≡ cs) × (g.poll_timeouts ≡ []) × (g.thread_network_callbacks ≡ false)

  add_external-Untouched :
      (cs : List factory.Command) (k : NetworkKind) (g : Gateway factory)
      → Untouched cs g
      → Untouched cs (add_external factory w k g).0
  unfolding add_external get_connection_id
  add_external-Untouched cs k g h = elim (Bool-cases (w.starts k (pos g.connection_id_generator))) [
    | inl e ↦ simp e h
    | inr e ↦ simp e h
  ]

  Untouched-IsKept : (cs : List factory.Command) → IsKept factory w (Untouched cs)
  Untouched-IsKept cs = record {
    adds = add_external-Untouched cs;
    keeps_client = λ c g h. h;
    keeps_controller = λ route id g h. h;
    keeps_listener = λ c g h. h;
  }

  callback_requests-poll_timeouts :
      (rs : List factory.Request) (g : Gateway factory)
      → (callback_requests factory rs g).poll_timeouts ≡ g.poll_timeouts
  unfolding callback_network_request
  callback_requests-poll_timeouts [] g = refl
  callback_requests-poll_timeouts (r ∷ rs) g =
      callback_requests-poll_timeouts rs (callback_network_request factory r g)

  callback_requests-thread :
      (rs : List factory.Request) (g : Gateway factory)
      → (callback_requests factory rs g).thread_network_callbacks ≡ g.thread_network_callbacks
  unfolding callback_network_request
  callback_requests-thread [] g = refl
  callback_requests-thread (r ∷ rs) g =
      callback_requests-thread rs (callback_network_request factory r g)

  -- Nor is what initialConnections starts from.
  abbrev Fresh : Gateway factory → Type 0
  Fresh g = (g.connection_id_generator ≡ 0) × (g.external_networks ≡ []) × (g.observed ≡ [])

  callback_requests-Fresh :
      (rs : List factory.Request) (g : Gateway factory)
      → Fresh g
      → Fresh (callback_requests factory rs g)
  unfolding callback_network_request
  callback_requests-Fresh [] g h = h
  callback_requests-Fresh (r ∷ rs) g h =
      callback_requests-Fresh rs (callback_network_request factory r g) h

  before_all-append :
      (o : Option factory.Command) (xs ys : List factory.Command)
      → before_all factory o xs ++ ys ≡ before_all factory o (xs ++ ys)
  before_all-append none xs ys = refl
  before_all-append (some c) xs ys = refl

  callback_requests-factory_state :
      (rs ss : List factory.Request) (g : Gateway factory)
      → created factory rs g.factory_state
          ++ created factory ss (callback_requests factory rs g).factory_state
        ≡ created factory (rs ++ ss) g.factory_state
  unfolding callback_network_request
  callback_requests-factory_state [] ss g = refl
  callback_requests-factory_state (r ∷ rs) ss g =
      before_all-append (factory.create_command r g.factory_state).1 _ _
      ∙ ap (before_all factory (factory.create_command r g.factory_state).1)
          (callback_requests-factory_state rs ss (callback_network_request factory r g))

  -- The gateway when the requests of both logs have been taken in.
  abbrev pub loaded : InitSettings factory.Request → factory.State → Gateway factory
  loaded s state = callback_requests factory s.requests_from_config (
      callback_requests factory s.requests_from_wal
        (record (new_gateway factory state) { async_network = s.async_network }))

  loaded-Untouched :
      (s : InitSettings factory.Request) (state : factory.State)
      → Untouched
          (created factory (s.requests_from_wal ++ s.requests_from_config) state)
          (loaded s state)
  loaded-Untouched s state =
      let fresh : Gateway factory = record (new_gateway factory state) {
        async_network = s.async_network;
      } in
      (
        callback_requests-created factory s.requests_from_config
              (callback_requests factory s.requests_from_wal fresh)
            ∙ ap
                (λ cs.
                  cs
                  ++ created factory s.requests_from_config
                      (callback_requests factory s.requests_from_wal fresh).factory_state)
                (callback_requests-created factory s.requests_from_wal fresh)
            ∙ callback_requests-factory_state s.requests_from_wal s.requests_from_config fresh,
        callback_requests-poll_timeouts s.requests_from_config _
            ∙ callback_requests-poll_timeouts s.requests_from_wal fresh,
        callback_requests-thread s.requests_from_config _
            ∙ callback_requests-thread s.requests_from_wal fresh,
      )

  set_poll_timeouts-InitEnds :
      (s : InitSettings factory.Request) (t : ℕ) (cs : List factory.Command) (g : Gateway factory)
      (es : List Network)
      → g.external_networks ≡ es
      → g.observed ≡ es
      → s.poll_timeout_millisec ≡ pos t
      → t < 2 ^ 31
      → Untouched cs g
      → InitEnds true es cs t s.async_network (finish_init factory w s (g, true))
  set_poll_timeouts-InitEnds s t cs g [] ext obs et small h = rw ext refl
  set_poll_timeouts-InitEnds s t cs g (n ∷ ns) ext obs et small h =
      let share = t / suc (length ns) in
      let set : g.poll_timeouts ++ map (λ k. (k, to_int32 (pos share))) (n ∷ ns)
          ≡ map (λ k. (k, pos share)) (n ∷ ns) =
        ap (λ ps. ps ++ map (λ k. (k, to_int32 (pos share))) (n ∷ ns)) h.1
        ∙ ap (λ q. map (λ k. (k, q)) (n ∷ ns)) (share_small t (length ns) small) in
      let thread : (if s.async_network then true else g.thread_network_callbacks)
          ≡ s.async_network =
        ground arith in
      simp (ext, et)
        (
          record g {
            external_networks = n ∷ ns;
            poll_timeouts = g.poll_timeouts ++ map (λ k. (k, to_int32 (pos share))) (n ∷ ns);
            thread_network_callbacks = if s.async_network then true else g.thread_network_callbacks;
          },
          refl,
          h.0,
          refl,
          obs,
          set,
          omega (arith, ap total_timeout set, total_timeout-le t n ns),
          thread,
        )

  derived-InitEnds :
      (s : InitSettings factory.Request) (t : ℕ) (cs : List factory.Command) (g : Gateway factory)
      (r : Gateway factory × Bool)
      → s.poll_timeout_millisec ≡ pos t
      → t < 2 ^ 31
      → Fresh g
      → Untouched cs r.0
      → Connected factory w (parts w s) g r
      → InitEnds
          (all_start w 0 (parts w s))
          (networks_from w 0 (parts w s))
          cs
          t
          s.async_network
          (finish_init factory w s (and_then factory w r (λ g2. (g2, true))))
  derived-InitEnds s t cs g (g2, false) et small fresh h c =
      let failed : all_start w 0 (parts w s) ≡ false =
        sym (c.started ∙ ap (λ k. all_start w k (parts w s)) fresh.0) in
      rw failed (g2, refl)
  derived-InitEnds s t cs g (g2, true) et small fresh h c =
      let (counted, no_networks, no_observed) = fresh in
      let started : all_start w 0 (parts w s) ≡ true =
        sym (c.started ∙ ap (λ k. all_start w k (parts w s)) counted) in
      let ext : g2.external_networks ≡ networks_from w 0 (parts w s) =
        c.networks refl
        ∙ ap (λ xs. xs ++ networks_from w g.connection_id_generator (parts w s)) no_networks
        ∙ ap (λ k. networks_from w k (parts w s)) counted in
      let obs : g2.observed ≡ networks_from w 0 (parts w s) =
        c.observers refl
        ∙ ap (λ xs. xs ++ networks_from w g.connection_id_generator (parts w s)) no_observed
        ∙ ap (λ k. networks_from w k (parts w s)) counted in
      rw started
        (set_poll_timeouts-InitEnds s t cs g2 (networks_from w 0 (parts w s)) ext obs et small h)

  -- From a new facade whose class does not override initDerive, with a timeout from 0 to the
  -- greatest int32: if one of the parts that the settings enable and the build has does not start,
  -- taken in their order with the numbers from 0 on, init fails; if there is no part, it divides
  -- by zero; else the external and the observed networks are exactly those of the parts, each is
  -- given its share of the timeout, which together do not exceed it, the queue holds the commands
  -- of the log's requests and then those of the configuration's, and the thread runs as the
  -- settings say.
  pub init-InitEnds :
      (s : InitSettings factory.Request) (t : ℕ) (state : factory.State)
      → s.poll_timeout_millisec ≡ pos t
      → t < 2 ^ 31
      → InitEnds
          (all_start w 0 (parts w s))
          (networks_from w 0 (parts w s))
          (created factory (s.requests_from_wal ++ s.requests_from_config) state)
          t
          s.async_network
          (init factory w (λ g. (g, true)) s (new_gateway factory state))
  unfolding init
  init-InitEnds s t state et small =
      derived-InitEnds s t _ (loaded s state) (initial_connections factory w s (loaded s state)) et
        small
        (callback_requests-Fresh s.requests_from_config _
          (callback_requests-Fresh s.requests_from_wal _ (refl, refl, refl)))
        (initial_connections-kept factory w (Untouched _) (Untouched-IsKept _) s (loaded s state)
          (loaded-Untouched s state))
        (initial_connections-Connected factory w s (loaded s state))
