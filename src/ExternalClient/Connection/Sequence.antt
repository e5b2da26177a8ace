-- ===== src/ExternalClient/Connection/Sequence.antt =====
-- The connect sequence of ExternalConnection, from `initializeConnection` on.
pub mod Answers
pub mod Protocol
pub mod Resting
use text.Mathlib.Text.{◌==◌ as str_eq}
use module_gateway.Common.{
  ℕ, zero, suc, String, true, false, List, [], ◌∷◌, none, some, length, if◌then◌else◌,
}
use module_gateway.Common.Dict.{find, map_values}
use module_gateway.Common.Dict.Numbers.{number_eq}
use module_gateway.Structures.Buffer.{empty_buffer}
use module_gateway.Structures.ReturnCode.{
  ReturnCode, ok, not_ok, device_not_registered, no_message_available, command_invalid,
  status_invalid, is_ok,
}
use module_gateway.Structures.Device.{DeviceIdentification}
use module_gateway.ExternalClient.Messages.{
  StatusState, connect, connect_ok, already_logged, status_ok, connect_response, status_response,
  command, create_device_status,
}
use module_gateway.ExternalClient.ErrorAggregator.{get_last_status, get_error}
use module_gateway.ExternalClient.SentMessages.{acknowledge_status}
use module_gateway.ExternalClient.Connection.{
  ConnectionState, not_initialized, not_connected, connecting, connected, ExternalConnection, next,
  rest, send, receive, set_state, clear_aggregator, is_unregistered, send_status,
}
use module_gateway.ExternalClient.Connection.Commands.{handle_command}

unfoldable pub connect_message_handle :
    String
    → String
    → String
    → List DeviceIdentification
    → ExternalConnection
    → ExternalConnection × ReturnCode
connect_message_handle session company vehicle devices c =
    let (asked, done) =
      send (connect session company vehicle devices) (record c { session_id = session }) in
    let (answered, response) = receive asked in
    if done
    then elim response [
      | none ↦ (answered, no_message_available)
      | some (connect_response id type) ↦
          if str_eq id session
          then elim type [ already_logged ↦ (answered, not_ok) | connect_ok ↦ (answered, ok) ]
          else (answered, not_ok)
      | some _ ↦ (answered, not_ok)
    ]
    else (asked, not_ok)

-- The first loop of `statusMessageHandle`. The devices' modules have error aggregators
-- (`getAllConnectedDevices` takes them from the settings); where one has none, `operator[]` makes an
-- empty one, which has no device registered.
unfoldable pub send_last_statuses :
    List DeviceIdentification → ExternalConnection → ExternalConnection × ReturnCode
send_last_statuses [] c = (c, ok)
send_last_statuses (d ∷ ds) c = elim (find number_eq d.module_number c.error_aggregators) [
  | none ↦ (c, device_not_registered)
  | some a ↦
      let (error, error_rc) = get_error a.library a.devices empty_buffer d in
      let (last, last_rc) = get_last_status a.library a.devices empty_buffer d in
      if is_unregistered error_rc
      then (c, device_not_registered)
      else if is_ok last_rc
      then send_last_statuses ds
          (send_status (create_device_status d last) StatusState.connecting error c)
      else (c, no_message_available)
]

-- The second loop of `statusMessageHandle`.
unfoldable pub receive_status_responses : ℕ → ExternalConnection → ExternalConnection × ReturnCode
receive_status_responses zero c = (c, ok)
receive_status_responses (suc n) c =
    let (answered, response) = receive c in
    elim response [
      | none ↦ (answered, no_message_available)
      | some (status_response id status_ok counter) ↦
          if str_eq id c.session_id
          then receive_status_responses n (record answered {
            sent_messages = (acknowledge_status answered.sent_messages counter).0;
          })
          else (answered, status_invalid)
      | some _ ↦ (answered, status_invalid)
    ]

unfoldable pub status_message_handle :
    List DeviceIdentification → ExternalConnection → ExternalConnection × ReturnCode
status_message_handle devices c =
    let (sent, rc) = send_last_statuses devices c in
    if is_ok rc then receive_status_responses (length devices) sent else (sent, rc)

unfoldable pub command_message_handle : ℕ → ExternalConnection → ExternalConnection × ReturnCode
command_message_handle zero c = (c, ok)
command_message_handle (suc n) c =
    let (answered, message) = receive c in
    elim message [
      | none ↦ (answered, no_message_available)
      | some (command m) ↦
          let (handled, rc) = handle_command m answered in
          elim (is_ok rc) [ true ↦ command_message_handle n handled | false ↦ (handled, not_ok) ]
      | some _ ↦ (answered, command_invalid)
    ]

-- The connect sequence, once the channel is open. A step runs if the one before it succeeded.
unfoldable pub connect_sequence :
    String
    → String
    → String
    → List DeviceIdentification
    → ExternalConnection
    → ExternalConnection × ReturnCode
connect_sequence session company vehicle devices c =
    let (first, rc) = connect_message_handle session company vehicle devices c in
    let (second, rc') = status_message_handle devices first in
    let (third, rc'') = command_message_handle (length devices) second in
    if is_ok rc then if is_ok rc' then (third, rc'') else (second, rc') else (first, rc)

abbrev pub leave_not_initialized : ConnectionState → ConnectionState
leave_not_initialized not_initialized = not_connected
leave_not_initialized s = s

-- The end of a connect sequence that succeeded.
abbrev pub finish_connect : ExternalConnection → ExternalConnection
finish_connect c = record c {
  state = connected;
  listening = true;
  stop_receiving = false;
  error_aggregators = map_values clear_aggregator c.error_aggregators;
}

-- `initializeConnection` with the session id that `generateSessionId` makes.
unfoldable pub initialize_connection :
    String
    → String
    → String
    → List DeviceIdentification
    → ExternalConnection
    → ExternalConnection × ReturnCode
initialize_connection session company vehicle devices c =
    let opening = record c {
      state = leave_not_initialized c.state;
      channel = record c.channel { opens = rest c.channel.opens };
    } in
    let (tried, rc) =
      connect_sequence session company vehicle devices (set_state connecting opening) in
    if next c.channel.opens
    then (if is_ok rc then (finish_connect tried, ok) else (set_state not_connected tried, not_ok))
    else (opening, not_ok)
