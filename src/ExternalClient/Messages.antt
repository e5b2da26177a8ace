-- ===== src/ExternalClient/Messages.antt =====
-- The protobuf messages of the external protocol, with the fields that the gateway reads and writes,
-- and what source/bringauto/common_utils/ProtobufUtils.cpp builds of them.
use module_gateway.Common.{ℕ, List, String}
use module_gateway.Structures.Buffer.{Buffer}
use module_gateway.Structures.Device.{DeviceIdentification}
use module_gateway.Structures.Messages.{DeviceStatus, DeviceCommand, payload}

-- ExternalProtocol::Status::DeviceState
pub data StatusState : Type 0 where
  connecting running disconnect error : StatusState

pub record Status : Type 0 where
  pub session_id : String
  pub device_state : StatusState
  pub message_counter : ℕ
  pub device_status : DeviceStatus
  pub error_message : List ℕ

pub data CommandResponseType : Type 0 where
  command_ok device_not_supported device_not_connected : CommandResponseType

-- ExternalProtocol::ExternalClient
pub data ExternalClient : Type 0 where
  connect : String → String → String → List DeviceIdentification → ExternalClient
  status : Status → ExternalClient
  command_response : String → CommandResponseType → ℕ → ExternalClient

pub data ConnectResponseType : Type 0 where
  connect_ok already_logged : ConnectResponseType

pub data StatusResponseType : Type 0 where
  status_ok : StatusResponseType
  other_type : ℕ → StatusResponseType

pub record Command : Type 0 where
  pub session_id : String
  pub message_counter : ℕ
  pub device_command : DeviceCommand

-- ExternalProtocol::ExternalServer: one of the three, or none.
pub data ExternalServer : Type 0 where
  connect_response : String → ConnectResponseType → ExternalServer
  status_response : String → StatusResponseType → ℕ → ExternalServer
  command : Command → ExternalServer
  nothing_set : ExternalServer

abbrev pub create_device_status : DeviceIdentification → Buffer → DeviceStatus
create_device_status d b = record { device = d; status_data = payload b }

abbrev pub create_external_client_status : String → StatusState → ℕ → DeviceStatus → Buffer → Status
create_external_client_status session state counter s e = record {
  session_id = session;
  device_state = state;
  message_counter = counter;
  device_status = s;
  error_message = payload e;
}
