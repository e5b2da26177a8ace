-- ===== src/Tests/Queues.antt =====
-- The theorems on the external client, applied to two connections of a module each.
use mathlib.Core.Option
use module_gateway.Common.{map, ℕ, Bool, true, false, List, [], ◌∷◌, ◌++◌, none, some, ◌≡◌, refl}
use module_gateway.Common.Dict.{assign, contains, find}
use module_gateway.Common.Dict.Numbers.{number_eq}
use module_gateway.Structures.Buffer.{empty_buffer}
use module_gateway.Structures.Device.{same_device}
use module_gateway.Structures.ThreadTimer.{started}
use module_gateway.Structures.DeviceState.{DeviceState}
use module_gateway.Structures.Messages.{
  DeviceCommand, InternalClientMessage, client_message, device_status,
}
use module_gateway.ModuleHandler.Dispatch.{Module, ModuleHandler}
use module_gateway.ExternalClient.SentMessages.{any_same, erase_device}
use module_gateway.ExternalClient.Connection.{
  Channel, ExternalConnection, connected, is_module_supported,
}
use module_gateway.ExternalClient.Client.{
  ExternalClient, init_connections, init_error_aggregators, new_connection,
}
use module_gateway.ExternalClient.Client.ConnectSequence.{
  Attempt, supports, drain_queue, wait_for_forced,
}
use module_gateway.ExternalClient.Client.Draining.{
  IsRouted, from_disconnect, filled_before, drain_queue-fills,
}
use module_gateway.ExternalClient.Connection.Sending.{waiting}
use module_gateway.ExternalClient.Connection.Reports.{numbered, status_in}
use module_gateway.ExternalClient.Client.Reporting.{rounds, rounds-numbered, statuses_of}
use module_gateway.ExternalClient.Client.Routing.{first_with, init_connections-routes}
use module_gateway.ExternalClient.Client.Loops.{filled_all, wait_for_forced-ends}
use module_gateway.Tests.{button, lamp, buffer_of, sample_library}

abbrev silent : Channel
silent = record {
  inbox = [];
  outbox = [];
  accepts = [];
  opens = [];
  notified = false;
  closed = false;
}

-- The lamp, which waits for no command.
abbrev lamp_state : DeviceState
lamp_state = record {
  timer = started 0;
  aggregated_messages = [];
  status = buffer_of (2 ∷ []);
  default_command = empty_buffer;
  external_commands = [];
  forward_command_immediately = true;
}

abbrev sample_module : Module
sample_module = record {
  library = sample_library;
  aggregator = record {
    devices = (lamp, lamp_state) ∷ [];
    device_timeouts = (lamp, 0) ∷ [];
    timeouted_message_ready = false;
    posted = [];
  };
}

abbrev first_client : ExternalClient
first_client = record {
  connections = [];
  connection_map = [];
  to_external = [];
  from_external = [];
  command_forwarding = [];
  reconnect_queue = [];
  inside_connect_sequence = true;
  timer = none;
  modules = (1, sample_module) ∷ [];
  company = "company";
  vehicle_name = "car";
}

abbrev endpoints : List (List ℕ × Channel)
endpoints = (1 ∷ [], silent) ∷ (2 ∷ 1 ∷ [], silent) ∷ []

init_connections-routes_example :
    let started = init_connections (λ n. sample_library) 0 endpoints first_client in
    (find number_eq 1 started.connection_map ≡ first_with 1 0 endpoints) × IsRouted 0 started
init_connections-routes_example =
    init_connections-routes (λ n. sample_library) endpoints first_client 1 0 refl refl

abbrev started_client : ExternalClient
started_client = init_connections (λ n. sample_library) 0 endpoints first_client

abbrev status_message : Bool → InternalClientMessage
status_message disconnected =
    client_message disconnected (device_status (record { device = button; status_data = 1 ∷ [] }))

abbrev messages : List InternalClientMessage
messages = status_message false ∷ status_message true ∷ status_message false ∷ []

drain_queue-fills_example :
    (find number_eq 0 (drain_queue 0 messages started_client).connections
      ≡ Option.map
          (filled_before (supports 0 started_client) messages)
          (find number_eq 0 started_client.connections))
    × ((drain_queue 0 messages started_client).to_external ≡ from_disconnect messages)
drain_queue-fills_example =
    drain_queue-fills 0 messages started_client
      (init_connections-routes (λ n. sample_library) endpoints first_client 1 0 refl refl).1

abbrev no_attempt : Attempt
no_attempt = record { session_id = "s"; waiting = []; connecting = []; stopped = true }

abbrev first_connection : ExternalConnection
first_connection = new_connection (λ n. sample_library) (1 ∷ []) silent

wait_for_forced-ends_example :
    let messages = status_message true ∷ [] in
    let (after, left) =
      wait_for_forced 0 (map (λ m. m ∷ []) messages) (button ∷ []) started_client in
    (left ≡ [])
    × (after.to_external ≡ [])
    × (find number_eq 0 after.connections ≡ some (filled_all messages first_connection))
    × ((filled_all messages first_connection).sent_messages.connected_devices
        ≡ first_connection.sent_messages.connected_devices)
unfolding init_connections find is_module_supported contains new_connection init_error_aggregators
    assign any_same same_device erase_device
wait_for_forced-ends_example =
    wait_for_forced-ends 0 (status_message true ∷ []) (button ∷ []) started_client first_connection
      refl refl (refl, refl, refl)

abbrev lamp_command : DeviceCommand
lamp_command = record { device = lamp; command_data = 9 ∷ [] }

abbrev empty_handler : ModuleHandler
empty_handler = record { modules = []; to_internal = []; to_external = [] }

abbrev established : ExternalConnection
established = record {
  modules = 1 ∷ [];
  state = connected;
  client_message_counter = 4294967295;
  server_message_counter = 0;
  session_id = "s";
  channel = record silent { accepts = true ∷ true ∷ [] };
  sent_messages = record {
    not_acked_statuses = [];
    connected_devices = [];
    response_handled = false;
    ended = 0;
  };
  error_aggregators = (1, record { library = sample_library; devices = [] }) ∷ [];
  command_queue = [];
  reconnect_queue = [];
  stop_receiving = false;
  listening = true;
}

abbrev reporting_client : ExternalClient
reporting_client = record first_client {
  connections = (0, established) ∷ [];
  connection_map = (1, 0) ∷ [];
  to_external = status_message false ∷ status_message false ∷ [];
  inside_connect_sequence = false;
}

rounds-numbered_example :
    let sent = numbered 4294967295 (statuses_of reporting_client.to_external) in
    let after = rounds 2 no_attempt reporting_client in
    (k' : ExternalConnection) × (after.to_external ≡ [])
    × (find number_eq 0 after.connections ≡ some k')
    × (k'.state ≡ connected)
    × (map status_in k'.channel.outbox ≡ [] ++ map (λ p. some p) sent)
    × (k'.sent_messages.not_acked_statuses ≡ [] ++ map (λ p. waiting p.0 p.1) sent)
unfolding find contains
rounds-numbered_example =
    rounds-numbered no_attempt 0 reporting_client established refl refl
      (record { established = refl; takes = (refl, (refl, tt)); known = (refl, (refl, tt)) })
      ((refl, refl), ((refl, refl), tt))
