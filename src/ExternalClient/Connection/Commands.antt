-- ===== src/ExternalClient/Connection/Commands.antt =====
-- `handleCommand` and the receiving loop of ExternalConnection.
pub mod Order
use text.Mathlib.Text.{◌==◌ as str_eq}
use module_gateway.Common.{
  ℕ, ◌+◌, ◌%◌, ◌^◌, Bool, true, false, [], ◌∷◌, ◌++◌, none, some, ◌==◌, if◌then◌else◌,
}
use module_gateway.Common.Dict.{find}
use module_gateway.Common.Dict.Numbers.{number_eq}
use module_gateway.Structures.ReturnCode.{ReturnCode, ok, not_ok, command_invalid, is_ok}
use module_gateway.Structures.Device.{DeviceIdentification}
use module_gateway.ExternalClient.Messages.{
  CommandResponseType, command_ok, device_not_supported, device_not_connected, command_response,
  Command, ExternalServer, connect_response, status_response, command, nothing_set,
}
use module_gateway.ExternalClient.SentMessages.{acknowledge_status, is_device_connected}
use module_gateway.ExternalClient.Connection.{
  ConnectionState, not_connected, connecting, ErrorAggregator, ExternalConnection, send, receive,
}

-- The type of the response to a command for a device of a module with the aggregator `a`.
unfoldable pub response_type :
    ExternalConnection → ErrorAggregator → DeviceIdentification → CommandResponseType
response_type c a d =
    if is_device_connected c.sent_messages d
    then command_ok
    else if is_ok (a.library.is_device_type_supported d.device_type)
    then device_not_connected
    else device_not_supported

abbrev pub is_in_order : ℕ → ℕ → Bool
is_in_order last counter = if last == 0 then true else (last + 1) % 2 ^ 32 == counter

unfoldable pub answer_command : Command → ErrorAggregator → ExternalConnection → ExternalConnection
answer_command m a c =
    let d = m.device_command.device in
    let type = response_type c a d in
    let queued =
      if is_device_connected c.sent_messages d
      then c.command_queue ++ m.device_command ∷ []
      else c.command_queue in
    (send (command_response c.session_id type m.message_counter)
      (record c { command_queue = queued })).0

unfoldable pub handle_command : Command → ExternalConnection → ExternalConnection × ReturnCode
handle_command m c =
    let counted = record c { server_message_counter = m.message_counter } in
    if str_eq m.session_id c.session_id
    then (if is_in_order c.server_message_counter m.message_counter
        then elim (find number_eq m.device_command.device.module_number c.error_aggregators) [
          | none ↦ (counted, not_ok)
          | some a ↦ (answer_command m a counted, ok)
        ]
        else (c, command_invalid))
    else (c, command_invalid)

abbrev pub ask_reconnect : Bool → ExternalConnection → ExternalConnection
ask_reconnect again c = record c { reconnect_queue = c.reconnect_queue ++ again ∷ [] }

-- What `receivingHandlerLoop` does with a message from the server, and whether it goes on.
unfoldable pub handle_server_message :
    ExternalServer → ExternalConnection → ExternalConnection × Bool
handle_server_message (command m) c =
    let (handled, rc) = handle_command m c in
    if is_ok rc then (handled, true) else (ask_reconnect true handled, false)
handle_server_message (status_response id type counter) c =
    let (h, rc) = acknowledge_status c.sent_messages counter in
    let acknowledged = record c { sent_messages = h } in
    if is_ok rc then (acknowledged, true) else (ask_reconnect false acknowledged, false)
handle_server_message (connect_response id type) c = (ask_reconnect true c, false)
handle_server_message nothing_set c = (ask_reconnect true c, false)

abbrev pub is_connecting : ConnectionState → Bool
is_connecting connecting = true
is_connecting _ = false

abbrev pub is_not_connected : ConnectionState → Bool
is_not_connected not_connected = true
is_not_connected _ = false

-- One round of `receivingHandlerLoop`, and whether there is another.
unfoldable pub receive_round : ExternalConnection → ExternalConnection × Bool
receive_round c =
    let (received, message) = receive c in
    let unnotified = record received { channel = record received.channel { notified = false } } in
    if c.stop_receiving
    then (c, false)
    else if is_connecting c.state
    then (c, true)
    else if c.channel.notified
    then (ask_reconnect false unnotified, false)
    else if is_not_connected c.state
    then (received, true)
    else elim message [ none ↦ (received, true) | some m ↦ handle_server_message m received ]
