-- ===== src/Gateway.antt =====
-- communication/communication_gateway_facade.{h,cpp}: CommunicationGatewayFacade, its queue of
-- commands and its networks. The generator of connection numbers is an int64_t from 0 up, which is
-- taken not to reach its end. Of the state, the fields that the facade's own methods read or write
-- are kept: m_serverNetworks is left out.
pub mod Connections
pub mod Steps
pub mod Numbers
pub mod Order
pub mod Parts
pub mod Starting
pub mod Lookup
use microservice_common.Base.{
  ℕ, String, Bool, false, not, List, [], ◌∷◌, ◌++◌, Option, none, some, is_empty,
}
use microservice_common.Common.Outcome.{Outcome, returned, undefined}
use microservice_common.Base.Int.{ℤ}

-- ICommandFactory, which the service supplies: a request gives a command or none. `State` is what the
-- factory keeps.
pub record CommandFactory : Type 1 where
  pub Request : Type 0
  pub Command : Type 0
  pub State : Type 0
  pub create_command : Request → State → State × Option Command

pub data EShellMode : Type 0 where
  client_mode server_mode : EShellMode

pub data EMessageMode : Type 0 where
  with_size without_size : EMessageMode

-- Shell::SInitSettings, with what the facade sets of it.
pub record ShellSettings : Type 0 where
  pub shell_mode : EShellMode
  pub message_mode : EMessageMode
  pub async_server_mode : Bool
  pub async_client_mode_requests : Bool
  pub socket_file_name : String

-- SAmqpRouteParameters.
pub record AmqpRouteParameters : Type 0 where
  pub predator_exchange_point_name : String
  pub predator_queue_name : String
  pub predator_routing_key_name : String
  pub target_exchange_point_name : String
  pub target_queue_name : String
  pub target_routing_key_name : String

-- AmqpClient::SInitSettings, with what the facade sets of it.
pub record AmqpSettings : Type 0 where
  pub server_host : String
  pub port : ℤ
  pub login : String
  pub pass : String
  pub amqp_virtual_host : String

-- The classes of networks, with the settings that their `init` gets.
pub data NetworkKind : Type 0 where
  shell : ShellSettings → NetworkKind
  webserver : ℤ → NetworkKind
  amqp_client : AmqpSettings → NetworkKind
  amqp_controller : AmqpRouteParameters → NetworkKind
  websocket_server : ℤ → NetworkKind
  objrepr_listener : ℕ → NetworkKind
  http_client : NetworkKind

-- A network that was made with a connection number. The number does not reach `m_connId`: the virtual
-- base INetworkEntity, which no class names in its constructor, is default-constructed and leaves
-- there what the memory held, `conn_id`.
pub record Network : Type 0 where
  pub kind : NetworkKind
  pub number : ℤ
  pub conn_id : ℤ

pub record Gateway (factory : CommandFactory) : Type 0 where
  pub connection_id_generator : ℕ
  pub shutdown_called : Bool
  pub async_network : Bool
  pub thread_network_callbacks : Bool
  pub client_networks : List Network
  pub external_networks : List Network
  pub external_networks_by_id : List (ℤ × Network)
  pub internal_networks : List Network
  pub internal_networks_by_id : List (ℤ × Network)
  pub initial_amqp_client : Option Network
  -- The global g_objreprListener.
  pub objrepr_listener : Option Network
  pub arrived_commands : List factory.Command
  pub factory_state : factory.State
  -- The calls of addObserver( this ) and of setPollTimeout, in their order.
  pub observed : List Network
  pub poll_timeouts : List (Network × ℤ)

module _ (factory : CommandFactory) where
  abbrev pub new_gateway : factory.State → Gateway factory
  new_gateway s = record {
    connection_id_generator = 0;
    shutdown_called = false;
    async_network = false;
    thread_network_callbacks = false;
    client_networks = [];
    external_networks = [];
    external_networks_by_id = [];
    internal_networks = [];
    internal_networks_by_id = [];
    initial_amqp_client = none;
    objrepr_listener = none;
    arrived_commands = [];
    factory_state = s;
    observed = [];
    poll_timeouts = [];
  }

  abbrev pub push_some {ℓ} : {A : Type ℓ} → Option A → List A → List A
  push_some none xs = xs
  push_some (some a) xs = xs ++ a ∷ []

  unfoldable pub callback_network_request : factory.Request → Gateway factory → Gateway factory
  callback_network_request request g =
      let (s, command) = factory.create_command request g.factory_state in
      record g { factory_state = s; arrived_commands = push_some command g.arrived_commands }

  -- The two loops of init.
  abbrev pub callback_requests : List factory.Request → Gateway factory → Gateway factory
  callback_requests [] g = g
  callback_requests (r ∷ rs) g = callback_requests rs (callback_network_request r g)

  unfoldable pub is_command_available : Gateway factory → Bool
  is_command_available g = not (is_empty g.arrived_commands)

  -- `front` and `pop`, which are undefined on an empty queue.
  abbrev take_front :
      Gateway factory → List factory.Command → Outcome (Gateway factory × factory.Command)
  take_front g [] = undefined
  take_front g (c ∷ cs) = returned (record g { arrived_commands = cs }, c)

  unfoldable pub next_incoming_command :
      Gateway factory → Outcome (Gateway factory × factory.Command)
  next_incoming_command g = take_front g g.arrived_commands
