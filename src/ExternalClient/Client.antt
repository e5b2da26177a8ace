-- ===== src/ExternalClient/Client.antt =====
-- source/bringauto/external_client/ExternalClient.cpp: the connections, and what goes between them
-- and the module handler. A connection is named by its position in externalConnectionsList_. What
-- the connections push to fromExternalQueue_ and reconnectQueue_ is collected from them in `collect`.
-- `timer` is the connection whose reconnect timer runs.
pub mod ConnectSequence
pub mod Draining
pub mod Loops
pub mod Reporting
pub mod Routing
pub mod Forwarding
use module_gateway.Common.{
  ℕ, zero, suc, String, Bool, true, false, List, [], ◌∷◌, ◌++◌, Option, none, some, if◌then◌else◌,
  is_nil, map,
}
use module_gateway.Common.Dict.{Dict, find, modify, try_emplace, assign, contains, map_values}
use module_gateway.Common.Dict.Numbers.{number_eq}
use module_gateway.Structures.Buffer.{Buffer, empty_buffer}
use module_gateway.Structures.ReturnCode.{ReturnCode, ok, is_ok}
use module_gateway.Structures.Device.{DeviceIdentification}
use module_gateway.Structures.Module.{ModuleLibraryHandler}
use module_gateway.Structures.Messages.{
  DeviceStatus, DeviceCommand, InternalClient, device_status, device_connect, nothing,
  InternalClientMessage, empty_device, make_command_forward,
}
use module_gateway.StatusAggregator.{update_command}
use module_gateway.ModuleHandler.{status_buffer}
use module_gateway.ModuleHandler.Dispatch.{Module}
use module_gateway.ExternalClient.Messages.{StatusState}
use module_gateway.ExternalClient.SentMessages.{init, timeout_handler}
use module_gateway.ExternalClient.Connection.{
  ConnectionState, not_initialized, connected, Channel, ErrorAggregator, ExternalConnection,
  fill_error_aggregator, deinitialize_connection, send_status, is_module_supported, set_state,
}
use module_gateway.ExternalClient.Connection.Commands.{receive_round}

pub record ExternalClient : Type 0 where
  pub connections : Dict ℕ ExternalConnection
  pub connection_map : Dict ℕ ℕ
  pub to_external : List InternalClientMessage
  pub from_external : List DeviceCommand
  pub command_forwarding : List InternalClientMessage
  pub reconnect_queue : List (ℕ × Bool)
  pub inside_connect_sequence : Bool
  pub timer : Option ℕ
  pub modules : Dict ℕ Module
  pub company : String
  pub vehicle_name : String

abbrev pub on_connection :
    ℕ → (ExternalConnection → ExternalConnection) → ExternalClient → ExternalClient
on_connection i f c = record c { connections = modify number_eq i f c.connections }

-- getMessage().devicestatus(), an empty one where the message has none.
abbrev pub status_of : InternalClient → DeviceStatus
status_of (device_status s) = s
status_of (device_connect d) = record { device = empty_device; status_data = [] }
status_of nothing = record { device = empty_device; status_data = [] }

-- `handleCommand` with the command of the module `m`.
unfoldable pub update_module_command : DeviceCommand → Module → ExternalClient → ExternalClient
update_module_command command m c =
    let d = command.device in
    let (a, rc) = update_command m.library m.aggregator (status_buffer command.command_data) d in
    let updated = record c {
      modules = modify number_eq d.module_number (λ k. record k { aggregator = a }) c.modules;
    } in
    if is_ok rc
    then (if is_ok (m.library.forward_command_on_receive d.device_type)
        then record updated {
          command_forwarding = c.command_forwarding ++ make_command_forward d ∷ [];
        }
        else updated)
    else updated

unfoldable pub handle_command : DeviceCommand → ExternalClient → ExternalClient
handle_command command c = elim (find number_eq command.device.module_number c.modules) [
  | none ↦ c
  | some m ↦ if is_nil command.command_data then c else update_module_command command m c
]

-- One command of `handleCommands`.
unfoldable pub handle_next_command : ExternalClient → ExternalClient
handle_next_command c = elim c.from_external [
  | [] ↦ c
  | command ∷ commands ↦ record (handle_command command c) { from_external = commands }
]

abbrev pub is_connected : ConnectionState → Bool
is_connected connected = true
is_connected _ = false

abbrev pub is_not_initialized : ConnectionState → Bool
is_not_initialized not_initialized = true
is_not_initialized _ = false

-- `sendStatus` to the connection `k` at `i`; `start` is startExternalConnectSequence.
unfoldable pub send_status_to :
    (ℕ → ExternalClient → ExternalClient)
    → ℕ
    → ExternalConnection
    → InternalClientMessage
    → ExternalClient
    → ExternalClient × Bool
send_status_to start i k m c =
    let s = status_of m.message in
    let filled = on_connection i (fill_error_aggregator s) c in
    if is_connected k.state
    then (if m.disconnected
        then (on_connection i (send_status s StatusState.disconnect empty_buffer) c, false)
        else (on_connection i (send_status s StatusState.running empty_buffer) c, true))
    else if is_not_initialized k.state
    then (if c.inside_connect_sequence then (filled, true) else (start i filled, true))
    else (filled, true)

-- A connection of externalConnectionMap_ is in the list.
unfoldable pub send_status_with :
    (ℕ → ExternalClient → ExternalClient)
    → InternalClientMessage
    → ExternalClient
    → ExternalClient × Bool
send_status_with start m c =
    elim (find number_eq (status_of m.message).device.module_number c.connection_map) [
      | none ↦ (c, true)
      | some i ↦ elim (find number_eq i c.connections) [
        | none ↦ (c, true)
        | some k ↦ send_status_to start i k m c
      ]
    ]

-- The error aggregators that `init` of ExternalConnection makes, with moduleLibraryHandlers[n] as a
-- function.
unfoldable pub init_error_aggregators : (ℕ → ModuleLibraryHandler) → List ℕ → Dict ℕ ErrorAggregator
init_error_aggregators libraries [] = []
init_error_aggregators libraries (n ∷ ns) =
    assign number_eq n (record { library = libraries n; devices = [] })
      (init_error_aggregators libraries ns)

-- `ExternalConnection` and `init`, with the modules of the connection's settings.
unfoldable pub new_connection : (ℕ → ModuleLibraryHandler) → List ℕ → Channel → ExternalConnection
new_connection libraries modules channel = record {
  modules = modules;
  state = not_initialized;
  client_message_counter = 0;
  server_message_counter = 0;
  session_id = "";
  channel = channel;
  sent_messages = init;
  error_aggregators = init_error_aggregators libraries modules;
  command_queue = [];
  reconnect_queue = [];
  stop_receiving = false;
  listening = false;
}

-- externalConnectionMap_.emplace: a module that has a connection keeps it.
unfoldable pub map_modules : ℕ → List ℕ → Dict ℕ ℕ → Dict ℕ ℕ
map_modules i [] d = d
map_modules i (n ∷ ns) d = map_modules i ns (try_emplace number_eq n i d)

-- `initConnections` for connections whose protocol is valid, from the position `i` on: the modules
-- of each and its channel.
unfoldable pub init_connections :
    (ℕ → ModuleLibraryHandler) → ℕ → List (List ℕ × Channel) → ExternalClient → ExternalClient
init_connections libraries i [] c = c
init_connections libraries i ((modules, channel) ∷ settings) c =
    init_connections libraries (suc i) settings (record c {
      connections = c.connections ++ (i, new_connection libraries modules channel) ∷ [];
      connection_map = map_modules i modules c.connection_map;
    })

-- What the connection `i` has pushed moves to the queues that it shares.
abbrev pub collect : ℕ → ExternalConnection → ExternalClient → ExternalClient
collect i k c = record c {
  connections =
      modify number_eq i (λ _. record k { command_queue = []; reconnect_queue = [] }) c.connections;
  from_external = c.from_external ++ k.command_queue;
  reconnect_queue = c.reconnect_queue ++ map (λ again. (i, again)) k.reconnect_queue;
}

-- A round of the receiving loop of the connection `i`.
unfoldable pub receive_step : ℕ → ExternalClient → ExternalClient
receive_step i c = elim (find number_eq i c.connections) [
  | none ↦ c
  | some k ↦ collect i (receive_round k).0 c
]

-- `destroy`
abbrev pub destroy : ExternalClient → ExternalClient
destroy c = record c { connections = map_values (deinitialize_connection true) c.connections }
