-- ===== src/Tests/Connection.antt =====
-- The theorems on an external connection, applied to one with a module and a device.
use module_gateway.ExternalClient.Connection.Commands.{answer_command, handle_command}
use mathlib.Core.Option
use module_gateway.Common.{
  ℕ, ◌+◌, ◌%◌, ◌^◌, Bool, true, false, List, [], ◌∷◌, ◌++◌, Option, some, drop, map, All, ◌≡◌, refl,
}
use module_gateway.Common.Dict.{contains, find, map_values}
use module_gateway.Common.Dict.Numbers.{number_eq}
use module_gateway.Structures.Buffer.{empty_buffer, is_allocated}
use module_gateway.Structures.ReturnCode.{ok}
use module_gateway.Structures.Device.{same_device}
use module_gateway.Structures.Messages.{DeviceStatus}
use module_gateway.ExternalClient.ErrorAggregator.{empty_state, get_error, get_last_status}
use module_gateway.ExternalClient.Messages.{
  StatusState, status, connect_response, connect_ok, status_response, status_ok, command, Command,
  ExternalClient, ExternalServer, create_device_status, create_external_client_status,
}
use module_gateway.ExternalClient.SentMessages.{init}
use module_gateway.ExternalClient.Connection.{
  Channel, ErrorAggregator, ExternalConnection, clear_aggregator, connected, connecting,
  deinitialize_connection, next_status_counter, not_initialized, receive, rest, send, send_marked,
  send_status,
}
use module_gateway.ExternalClient.Connection.Commands.Order.{
  handle_commands, Consecutive, for_connected, handle_commands-accepted,
}
use module_gateway.ExternalClient.Connection.Statuses.{
  statuses_of, with_statuses, deinitialize_connection-keeps,
}
use module_gateway.ExternalClient.Connection.Sending.{waiting, send_status-failed}
use module_gateway.ExternalClient.Connection.Sequence.{
  command_message_handle, connect_message_handle, connect_sequence, initialize_connection,
  receive_status_responses, send_last_statuses, status_message_handle,
}
use module_gateway.ExternalClient.Connection.Sequence.Answers.{answers, protocol}
use module_gateway.ExternalClient.Connection.Sequence.Protocol.{initialize_connection-protocol}
use module_gateway.ExternalClient.Connection.ConnectedDevices.Reconnecting.{
  send_last_statuses-cleared,
}
use module_gateway.Tests.{button, sample_library}

abbrev channel_of : List (Option ExternalServer) → Bool → Channel
channel_of inbox accepts = record {
  inbox = inbox;
  outbox = [];
  accepts = accepts ∷ accepts ∷ accepts ∷ [];
  opens = true ∷ [];
  notified = false;
  closed = false;
}

-- The button has had a status.
abbrev button_aggregator : ErrorAggregator
button_aggregator = record { library = sample_library; devices = (button, empty_state) ∷ [] }

abbrev connection_with : Channel → ExternalConnection
connection_with channel = record {
  modules = 1 ∷ [];
  state = connected;
  client_message_counter = 0;
  server_message_counter = 0;
  session_id = "s";
  channel = channel;
  sent_messages = record init { connected_devices = button ∷ [] };
  error_aggregators = (1, button_aggregator) ∷ [];
  command_queue = [];
  reconnect_queue = [];
  stop_receiving = false;
  listening = true;
}

abbrev press : ℕ → Command
press n = record {
  session_id = "s";
  message_counter = n;
  device_command = record { device = button; command_data = 5 ∷ [] };
}

abbrev open_connection : ExternalConnection
open_connection = connection_with (channel_of [] true)

handle_commands-accepted_example :
    Consecutive 0 (map (λ m. m.message_counter) (press 7 ∷ press 8 ∷ []))
    × All (λ m. m.session_id ≡ "s") (press 7 ∷ press 8 ∷ [])
    × ((handle_commands (press 7 ∷ press 8 ∷ []) open_connection).0.command_queue
        ≡ [] ++ for_connected open_connection.sent_messages (press 7 ∷ press 8 ∷ []))
unfolding handle_commands find handle_command answer_command send
handle_commands-accepted_example =
    handle_commands-accepted (press 7 ∷ press 8 ∷ []) open_connection refl

abbrev button_status : DeviceStatus
button_status = record { device = button; status_data = 1 ∷ [] }

abbrev waiting_connection : ExternalConnection
waiting_connection = record open_connection {
  sent_messages = record open_connection.sent_messages {
    not_acked_statuses = waiting 1 button_status ∷ waiting 2 button_status ∷ [];
  };
}

deinitialize_connection-keeps_example :
    let ended = deinitialize_connection false waiting_connection in
    (find number_eq 1 ended.error_aggregators
      ≡ Option.map
          (with_statuses (statuses_of 1 waiting_connection.sent_messages.not_acked_statuses))
          (find number_eq 1 waiting_connection.error_aggregators))
    × (ended.sent_messages.not_acked_statuses ≡ [])
    × (ended.sent_messages.connected_devices ≡ waiting_connection.sent_messages.connected_devices)
    × (ended.state ≡ not_initialized)
deinitialize_connection-keeps_example = deinitialize_connection-keeps 1 waiting_connection

abbrev broken_connection : ExternalConnection
broken_connection = connection_with (channel_of [] false)

send_status-failed_example :
    let c = broken_connection in
    let after = send_status button_status StatusState.running empty_buffer c in
    let unsent = [] ++ waiting (next_status_counter c) button_status ∷ [] in
    (find number_eq 1 after.error_aggregators
      ≡ some (with_statuses (statuses_of 1 unsent) button_aggregator))
    × (after.sent_messages.not_acked_statuses ≡ [])
    × (after.state ≡ not_initialized)
    × (after.channel.outbox ≡ [])
unfolding find get_last_status same_device
send_status-failed_example =
    send_status-failed button_status StatusState.running empty_buffer button_aggregator
      broken_connection refl refl refl

-- A server that answers by the protocol, with one device.
abbrev answered_connection : ExternalConnection
answered_connection = connection_with (
    channel_of
      (some (connect_response "t" connect_ok)
        ∷ some (status_response "t" status_ok 1)
        ∷ some (command (record (press 3) { session_id = "t" }))
        ∷ [])
      true)

initialize_connection-protocol_example :
    let c = answered_connection in
    let result = initialize_connection "t" "company" "car" (button ∷ []) c in
    (true ≡ true)
    × (answers (protocol "t" 1) c.channel.inbox ≡ true)
    × (result.0.channel.inbox ≡ drop 1 (drop 1 (rest c.channel.inbox)))
    × (result.0.state ≡ connected)
    × (result.0.listening ≡ true)
unfolding initialize_connection connect_sequence connect_message_handle send receive
    status_message_handle send_last_statuses find get_error same_device is_allocated get_last_status
    receive_status_responses send_status send_marked command_message_handle handle_command
initialize_connection-protocol_example =
    initialize_connection-protocol "t" "company" "car" (button ∷ []) answered_connection refl

send_last_statuses-cleared_example :
    let c = open_connection in
    let cleared = record c {
      error_aggregators = map_values clear_aggregator c.error_aggregators;
    } in
    let result = send_last_statuses (button ∷ []) cleared in
    (result.0.channel.outbox
      ≡ []
        ++ status (
            create_external_client_status "s" StatusState.connecting
              ((0 + 1) % 2 ^ 32)
              (create_device_status button empty_buffer)
              empty_buffer)
          ∷ [])
    × (result.1 ≡ ok)
unfolding find contains same_device
send_last_statuses-cleared_example = send_last_statuses-cleared button open_connection refl refl

-- The connection waits for the answers to two statuses; the response to one and a command come.
abbrev connecting_connection : ExternalConnection
connecting_connection = record waiting_connection {
  state = connecting;
  channel =
      channel_of (some (status_response "s" status_ok 1) ∷ some (command (press 7)) ∷ []) true;
}
