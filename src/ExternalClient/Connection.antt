-- ===== src/ExternalClient/Connection.antt =====
-- source/bringauto/external_client/connection/ExternalConnection.cpp: the connection to one external
-- server. The communication channel is an interface: the model has what it answers to the calls to
-- come. The statuses that a channel has sent stand in `outbox`.
pub mod Commands
pub mod Sequence
pub mod Statuses
pub mod Sending
pub mod Reports
pub mod ConnectedDevices
use text.Mathlib.Text.{◌==◌ as str_eq}
use module_gateway.Common.{
  ℕ, zero, suc, ◌+◌, ◌%◌, ◌^◌, String, Bool, true, false, not, ◌&&◌, List, [], ◌∷◌, ◌++◌, Option,
  none, some, ◌==◌, length, if◌then◌else◌,
}
use module_gateway.Common.Dict.{Dict, find, contains, modify, map_values}
use module_gateway.Common.Dict.Numbers.{number_eq}
use module_gateway.Structures.Buffer.{Buffer, empty_buffer}
use module_gateway.Structures.ReturnCode.{
  ReturnCode, ok, not_ok, device_not_registered, no_message_available, command_invalid,
  status_invalid, is_ok,
}
use module_gateway.Structures.Device.{DeviceIdentification}
use module_gateway.Structures.Module.{ModuleLibraryHandler}
use module_gateway.Structures.Messages.{DeviceStatus, DeviceCommand}
use module_gateway.StatusAggregator.{
  StatusAggregator, force_aggregation_on_device, get_unique_devices,
}
use module_gateway.ModuleHandler.{status_buffer}
use module_gateway.ModuleHandler.Dispatch.{Module}
use module_gateway.ExternalClient.Messages.{
  StatusState, Status, CommandResponseType, command_ok, device_not_supported, device_not_connected,
  ExternalClient, connect, status, command_response, ConnectResponseType, connect_ok,
  already_logged, StatusResponseType, status_ok, Command, ExternalServer, connect_response,
  status_response, command, nothing_set, create_device_status, create_external_client_status,
}
use module_gateway.ExternalClient.ErrorAggregator.{
  Devices, add_status_to_error_aggregator, get_last_status, get_error, clear_error_aggregator,
}
use module_gateway.ExternalClient.SentMessages.{
  NotAckedStatus, SentMessagesHandler, add_not_acked_status, acknowledge_status, clear_all,
  clear_all_timers, add_device_as_connected, delete_connected_device, is_device_connected,
}

pub data ConnectionState : Type 0 where
  not_initialized not_connected connecting connected closing : ConnectionState

-- ICommunicationChannel: what receiveMessage returns from now on, and then nothing; what sendMessage
-- returns, and then false; whether initializeConnection returns or throws; and whether the server
-- has sent a disconnect notification.
pub record Channel : Type 0 where
  pub inbox : List (Option ExternalServer)
  pub outbox : List ExternalClient
  pub accepts : List Bool
  pub opens : List Bool
  pub notified : Bool
  pub closed : Bool

-- An error aggregator with its module's library.
pub record ErrorAggregator : Type 0 where
  pub library : ModuleLibraryHandler
  pub devices : Devices

pub record ExternalConnection : Type 0 where
  pub modules : List ℕ
  pub state : ConnectionState
  pub client_message_counter : ℕ
  pub server_message_counter : ℕ
  pub session_id : String
  pub channel : Channel
  pub sent_messages : SentMessagesHandler
  pub error_aggregators : Dict ℕ ErrorAggregator
  pub command_queue : List DeviceCommand
  -- The items that this connection has put into reconnectQueue_: whether to reconnect.
  pub reconnect_queue : List Bool
  pub stop_receiving : Bool
  pub listening : Bool

abbrev pub next : List Bool → Bool
next [] = false
next (b ∷ bs) = b

abbrev pub rest {ℓ} : {A : Type ℓ} → List A → List A
rest [] = []
rest (a ∷ later) = later

unfoldable pub send : ExternalClient → ExternalConnection → ExternalConnection × Bool
send m c =
    let ch = c.channel in
    let sent = next ch.accepts in
    (
      record c {
        channel = record ch {
          accepts = rest ch.accepts;
          outbox = if sent then ch.outbox ++ m ∷ [] else ch.outbox;
        };
      },
      sent,
    )

abbrev pub head_message : List (Option ExternalServer) → Option ExternalServer
head_message [] = none
head_message (m ∷ ms) = m

unfoldable pub receive : ExternalConnection → ExternalConnection × Option ExternalServer
receive c = (
  record c { channel = record c.channel { inbox = rest c.channel.inbox } },
  head_message c.channel.inbox,
)

abbrev pub close_channel : ExternalConnection → ExternalConnection
close_channel c = record c { channel = record c.channel { closed = true } }

abbrev pub set_state : ConnectionState → ExternalConnection → ExternalConnection
set_state s c = record c { state = s }

-- Adds a status to the error aggregator of its module, if the connection has one. The library of
-- such a module is loaded, so that `at` finds it.
unfoldable pub aggregate : DeviceStatus → Dict ℕ ErrorAggregator → Dict ℕ ErrorAggregator
aggregate s = modify number_eq s.device.module_number λ a. record a {
  devices =
      (add_status_to_error_aggregator a.library a.devices (status_buffer s.status_data) s.device).0;
}

unfoldable pub aggregate_all : List NotAckedStatus → Dict ℕ ErrorAggregator → Dict ℕ ErrorAggregator
aggregate_all [] e = e
aggregate_all (s ∷ ss) e = aggregate_all ss (aggregate s.status e)

unfoldable pub fill_error_aggregator_with_not_acked_statuses :
    ExternalConnection → ExternalConnection
fill_error_aggregator_with_not_acked_statuses c = record c {
  error_aggregators = aggregate_all c.sent_messages.not_acked_statuses c.error_aggregators;
  sent_messages = clear_all c.sent_messages;
}

unfoldable pub fill_error_aggregator : DeviceStatus → ExternalConnection → ExternalConnection
fill_error_aggregator s c =
    let filled = fill_error_aggregator_with_not_acked_statuses c in
    if contains number_eq s.device.module_number c.error_aggregators
    then record filled { error_aggregators = aggregate s filled.error_aggregators }
    else c

abbrev pub clear_aggregator : ErrorAggregator → ErrorAggregator
clear_aggregator a = record a { devices = (clear_error_aggregator a.library a.devices).0 }

unfoldable pub deinitialize_connection : Bool → ExternalConnection → ExternalConnection
deinitialize_connection completely c =
    let closed = close_channel (record c {
      state = not_initialized;
      client_message_counter = 0;
      server_message_counter = 0;
      sent_messages = clear_all_timers c.sent_messages;
      stop_receiving = true;
      listening = false;
    }) in
    if completely
    then record closed { error_aggregators = map_values clear_aggregator closed.error_aggregators }
    else fill_error_aggregator_with_not_acked_statuses closed

-- The switch of `sendStatus`: the state that is sent, and the connected devices.
unfoldable pub mark_device :
    StatusState → DeviceIdentification → SentMessagesHandler → StatusState × SentMessagesHandler
mark_device StatusState.connecting d h = (StatusState.connecting, add_device_as_connected h d)
mark_device StatusState.running d h =
    if is_device_connected h d
    then (StatusState.running, h)
    else (StatusState.connecting, add_device_as_connected h d)
mark_device StatusState.disconnect d h = (StatusState.disconnect, delete_connected_device h d)
mark_device StatusState.error d h = (StatusState.error, h)

-- DEVICE_NOT_REGISTERED
abbrev pub is_unregistered : ReturnCode → Bool
is_unregistered device_not_registered = true
is_unregistered _ = false

abbrev pub next_status_counter : ExternalConnection → ℕ
next_status_counter c = (c.client_message_counter + 1) % 2 ^ 32

-- The end of `sendStatus`, from its switch on.
unfoldable pub send_marked :
    DeviceStatus → StatusState → Buffer → ExternalConnection → ExternalConnection
send_marked s state error c =
    let (marked, h) = mark_device state s.device c.sent_messages in
    let counter = next_status_counter c in
    let message = create_external_client_status c.session_id marked counter s error in
    let (sent, done) = send (status message) (record c {
      client_message_counter = counter;
      sent_messages = add_not_acked_status h counter s;
    }) in
    if done then sent else deinitialize_connection false sent

unfoldable pub send_status :
    DeviceStatus → StatusState → Buffer → ExternalConnection → ExternalConnection
send_status s state error c = elim (find number_eq s.device.module_number c.error_aggregators) [
  | none ↦ c
  | some a ↦
      if is_unregistered (get_last_status a.library a.devices empty_buffer s.device).1
      then send_marked s StatusState.connecting error
          (record c { error_aggregators = aggregate s c.error_aggregators })
      else send_marked s state error c
]

unfoldable pub is_module_supported : ExternalConnection → ℕ → Bool
is_module_supported c n = contains number_eq n c.error_aggregators
