-- ===== src/Structures/Messages.antt =====
-- The messages between the components: the protobuf messages of the internal protocol with the
-- fields that the gateway reads, and the wrappers InternalClientMessage and ModuleHandlerMessage.
-- A protobuf `Device` has the fields of a DeviceIdentification and stands as one.
use module_gateway.Common.{ℕ, Bool, true, false, List, [], if◌then◌else◌}
use module_gateway.Structures.Buffer.{Buffer, is_allocated}
use module_gateway.Structures.Device.{DeviceIdentification}

pub record DeviceStatus : Type 0 where
  pub device : DeviceIdentification
  pub status_data : List ℕ

pub record DeviceCommand : Type 0 where
  pub device : DeviceIdentification
  pub command_data : List ℕ

-- InternalProtocol::InternalClient: a status, a connect, or neither.
pub data InternalClient : Type 0 where
  device_status : DeviceStatus → InternalClient
  device_connect : DeviceIdentification → InternalClient
  nothing : InternalClient

pub data ResponseType : Type 0 where
  response_ok module_not_supported response_device_not_supported : ResponseType
  already_connected higher_priority_already_connected : ResponseType

-- InternalProtocol::InternalServer: a command, a connect response, or neither.
pub data InternalServer : Type 0 where
  device_command : DeviceCommand → InternalServer
  connect_response : DeviceIdentification → ResponseType → InternalServer
  no_response : InternalServer

-- Device {}
abbrev pub empty_device : DeviceIdentification
empty_device = record {
  module_number = 0;
  device_type = 0;
  device_role = "";
  device_name = "";
  priority = 0;
}

pub record InternalClientMessage : Type 0 where
  pub message : InternalClient
  pub disconnected : Bool
  pub command_forward : Bool
  pub device_id : DeviceIdentification

abbrev pub disconnect_message : DeviceIdentification → InternalClientMessage
disconnect_message d = record {
  message = nothing;
  disconnected = true;
  command_forward = false;
  device_id = d;
}

abbrev pub client_message : Bool → InternalClient → InternalClientMessage
client_message disconnected m = record {
  message = m;
  disconnected = disconnected;
  command_forward = false;
  device_id = empty_device;
}

abbrev pub make_command_forward : DeviceIdentification → InternalClientMessage
make_command_forward d = record {
  message = nothing;
  disconnected = false;
  command_forward = true;
  device_id = d;
}

pub record ModuleHandlerMessage : Type 0 where
  pub message : InternalServer
  pub disconnected : Bool
  pub device_id : DeviceIdentification

abbrev pub disconnect_device : DeviceIdentification → ModuleHandlerMessage
disconnect_device d = record { message = no_response; disconnected = true; device_id = d }

abbrev pub server_message : Bool → InternalServer → ModuleHandlerMessage
server_message disconnected m = record {
  message = m;
  disconnected = disconnected;
  device_id = empty_device;
}

-- ProtobufUtils: the data of a message is that of an allocated buffer, or stays empty.
abbrev pub payload : Buffer → List ℕ
unfolding is_allocated
payload b = if is_allocated b then b.bytes else []

unfoldable pub create_command_message : DeviceIdentification → Buffer → InternalServer
unfolding payload
create_command_message d command =
    device_command (record { device = d; command_data = payload command })

abbrev pub create_status_message : DeviceIdentification → Buffer → InternalClient
unfolding payload
create_status_message d status = device_status (record { device = d; status_data = payload status })
