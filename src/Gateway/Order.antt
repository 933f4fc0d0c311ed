-- ===== src/Gateway/Order.antt =====
-- The commands of the facade's queue, against the requests that arrived.
use microservice_common.Base.{
  ◌≡◌, refl, ap, sym, ◌∙◌, List, [], ◌∷◌, ◌++◌, Option, none, some, if◌then◌else◌, append_assoc,
  append_nil,
}
use microservice_common.Common.Outcome.{Outcome, returned, ◌>>=◌}
use microservice_common.Gateway.{
  CommandFactory, Gateway, push_some, callback_network_request, callback_requests,
  is_command_available, next_incoming_command,
}

module _ (factory : CommandFactory) where
  abbrev pub before_all : Option factory.Command → List factory.Command → List factory.Command
  before_all none cs = cs
  before_all (some c) cs = c ∷ cs

  -- The commands that the factory makes of requests in this order.
  abbrev pub created : List factory.Request → factory.State → List factory.Command
  created [] s = []
  created (r ∷ rs) s =
      let (s2, command) = factory.create_command r s in before_all command (created rs s2)

  push_some-before_all :
      (o : Option factory.Command) (xs ys : List factory.Command)
      → push_some factory o xs ++ ys ≡ xs ++ before_all o ys
  push_some-before_all none xs ys = refl
  push_some-before_all (some c) xs ys = append_assoc xs (c ∷ []) ys

  pub callback_requests-created :
      (rs : List factory.Request) (g : Gateway factory)
      → (callback_requests factory rs g).arrived_commands
        ≡ g.arrived_commands ++ created rs g.factory_state
  unfolding callback_network_request
  callback_requests-created [] g = sym (append_nil g.arrived_commands)
  callback_requests-created (r ∷ rs) g =
      callback_requests-created rs (callback_network_request factory r g)
      ∙ push_some-before_all (factory.create_command r g.factory_state).1 g.arrived_commands _

-- What a service does with the queue: a request arrives, or it takes a command if one is available.
pub data QueueCall (factory : CommandFactory) : Type 0 where
  arrives : factory.Request → QueueCall factory
  takes : QueueCall factory

module _ (factory : CommandFactory) where
  abbrev pub take_available :
      Gateway factory → List factory.Command → Outcome (Gateway factory × List factory.Command)
  take_available g taken =
      if is_command_available factory g
      then (next_incoming_command factory g >>= λ r. returned (r.0, taken ++ r.1 ∷ []))
      else returned (g, taken)

  -- The queue's calls in turn, with the commands taken.
  abbrev pub run_queue_calls :
      List (QueueCall factory)
      → Gateway factory
      → List factory.Command
      → Outcome (Gateway factory × List factory.Command)
  run_queue_calls [] g taken = returned (g, taken)
  run_queue_calls (arrives r ∷ cs) g taken =
      run_queue_calls cs (callback_network_request factory r g) taken
  run_queue_calls (takes ∷ cs) g taken = take_available g taken >>= λ r. run_queue_calls cs r.0 r.1

  abbrev pub arrivals : List (QueueCall factory) → List factory.Request
  arrivals [] = []
  arrivals (arrives r ∷ cs) = r ∷ arrivals cs
  arrivals (takes ∷ cs) = arrivals cs

  take_available-returned :
      (g : Gateway factory) (taken waiting : List factory.Command)
      → g.arrived_commands ≡ waiting
      → (after : Gateway factory) × (taken2 : List factory.Command) × (take_available g taken
          ≡ returned (after, taken2))
        × (taken2 ++ after.arrived_commands ≡ taken ++ g.arrived_commands)
        × (after.factory_state ≡ g.factory_state)
  unfolding is_command_available next_incoming_command
  take_available-returned g taken [] e = (g, taken, rw e refl, refl, refl)
  take_available-returned g taken (c ∷ cs) e = (
    record g { arrived_commands = cs },
    taken ++ c ∷ [],
    rw e refl,
    append_assoc taken (c ∷ []) cs ∙ ap (λ xs. taken ++ xs) (sym e),
    refl,
  )

  -- However requests arrive and commands are taken where one is available, the commands taken and
  -- then those that wait are those that waited before and then those of the requests, in the order
  -- of their arrival.
  pub run_queue_calls-in_order :
      (cs : List (QueueCall factory)) (g : Gateway factory) (taken : List factory.Command)
      → (after : Gateway factory) × (taken2 : List factory.Command) × (run_queue_calls cs g taken
          ≡ returned (after, taken2))
        × (taken2 ++ after.arrived_commands
            ≡ taken ++ (g.arrived_commands ++ created factory (arrivals cs) g.factory_state))
  unfolding callback_network_request
  run_queue_calls-in_order [] g taken =
      (g, taken, refl, ap (λ xs. taken ++ xs) (sym (append_nil g.arrived_commands)))
  run_queue_calls-in_order (arrives r ∷ cs) g taken =
      let g2 = callback_network_request factory r g in
      let (after, taken2, e, order) = run_queue_calls-in_order cs g2 taken in
      (
        after,
        taken2,
        e,
        order
            ∙ ap (λ xs. taken ++ xs)
                (push_some-before_all factory (factory.create_command r g.factory_state).1
                  g.arrived_commands _),
      )
  run_queue_calls-in_order (takes ∷ cs) g taken =
      let (g2, taken2, e, kept, same) = take_available-returned g taken g.arrived_commands refl in
      let (after, taken3, e2, order) = run_queue_calls-in_order cs g2 taken2 in
      (
        after,
        taken3,
        ap (λ o. o >>= λ r. run_queue_calls cs r.0 r.1) e ∙ e2,
        order
            ∙ sym (append_assoc taken2 g2.arrived_commands _)
            ∙ ap (λ xs. xs ++ created factory (arrivals cs) g2.factory_state) kept
            ∙ append_assoc taken g.arrived_commands _
            ∙ ap (λ s. taken ++ (g.arrived_commands ++ created factory (arrivals cs) s)) same,
      )
