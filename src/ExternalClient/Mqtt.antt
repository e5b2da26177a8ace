-- ===== src/ExternalClient/Mqtt.antt =====
-- source/bringauto/external_client/connection/communication/MqttCommunication.cpp. The Paho client is
-- no part of the repository: the model has whether it is connected, and what it answers to the calls
-- of try_consume_message_for to come.
pub mod Receiving
use Prim.Native.String.{◌++◌ as text_append}
use text.Mathlib.Text.{◌==◌ as str_eq}
use module_gateway.Common.{
  ℕ, String, Bool, true, false, ◌&&◌, List, [], ◌∷◌, ◌++◌, Option, none, some, if◌then◌else◌,
}
use module_gateway.Common.Dict.{Dict, find, contains}
use module_gateway.Settings.{ExternalConnectionSettings, text_eq}
use module_gateway.ExternalClient.Messages.{ExternalClient, ExternalServer}
use module_gateway.ExternalClient.Connection.{rest}

-- A message of the broker.
pub record Message : Type 0 where
  pub topic : String
  pub payload : List ℕ

-- mqtt::async_client
pub record AsyncClient : Type 0 where
  pub connected : Bool
  pub incoming : List (Option Message)
  pub published : List (String × ExternalClient)
  pub subscriptions : List String

pub record MqttCommunication : Type 0 where
  pub client : Option AsyncClient
  pub client_id : String
  pub publish_topic : String
  pub subscribe_topic : String
  pub server_disconnect_topic : String
  pub server_disconnect_pending : Bool
  pub server_address : String

unfoldable pub create_client_id : String → String → String
create_client_id company vehicle = text_append (text_append company "/") vehicle

unfoldable pub create_publish_topic : String → String → String
create_publish_topic company vehicle =
    text_append (create_client_id company vehicle) "/module_gateway"

unfoldable pub create_subscribe_topic : String → String → String
create_subscribe_topic company vehicle =
    text_append (create_client_id company vehicle) "/external_server"

unfoldable pub create_server_disconnect_topic : String → String → String
create_server_disconnect_topic company vehicle =
    text_append (create_client_id company vehicle) "/external_server_disconnect"

-- SSL is asked for, and its files are given.
unfoldable pub uses_ssl : Dict String String → Bool
uses_ssl settings =
    (elim (find text_eq "ssl" settings) [ none ↦ false | some v ↦ str_eq v "true" ])
    && contains text_eq "ca-file" settings
    && contains text_eq "client-cert" settings
    && contains text_eq "client-key" settings

-- `MqttCommunication` and `setProperties`, with std::to_string.
unfoldable pub set_properties :
    (ℕ → String) → ExternalConnectionSettings → String → String → MqttCommunication
set_properties number_text settings company vehicle =
    let address = text_append (text_append settings.server_ip ":") (number_text settings.port) in
    record {
      client = none;
      client_id = create_client_id company vehicle;
      publish_topic = create_publish_topic company vehicle;
      subscribe_topic = create_subscribe_topic company vehicle;
      server_disconnect_topic = create_server_disconnect_topic company vehicle;
      server_disconnect_pending = false;
      server_address =
          if uses_ssl settings.protocol_settings then text_append "ssl://" address else address;
    }

unfoldable pub close_connection : MqttCommunication → MqttCommunication
close_connection m = record m { server_disconnect_pending = false; client = none }

abbrev pub is_open : Option AsyncClient → Bool
is_open none = false
is_open (some p) = p.connected

-- `connect` with a new client, which has connected or throws.
unfoldable pub connect : AsyncClient → MqttCommunication → MqttCommunication × Bool
connect p m = (
  record m {
    client = some (
        if p.connected
        then record p { subscriptions = m.subscribe_topic ∷ m.server_disconnect_topic ∷ [] }
        else p);
  },
  p.connected,
)

unfoldable pub initialize_connection : AsyncClient → MqttCommunication → MqttCommunication × Bool
initialize_connection p m = elim m.client [
  | none ↦ connect p m
  | some old ↦ if old.connected then (m, true) else connect p (close_connection m)
]

unfoldable pub send_message : ExternalClient → MqttCommunication → MqttCommunication × Bool
send_message message m = elim m.client [
  | none ↦ (m, false)
  | some p ↦
      if p.connected
      then (
        record m {
          client = some (record p { published = p.published ++ (m.publish_topic, message) ∷ [] });
        },
        true,
      )
      else (m, false)
]

abbrev pub head_message : List (Option Message) → Option Message
head_message [] = none
head_message (a ∷ later) = a

-- A message that the client has consumed; `parse` is protobuf's ParseFromArray.
unfoldable pub take_message :
    (List ℕ → Option ExternalServer)
    → Option Message
    → MqttCommunication
    → MqttCommunication × Option ExternalServer
take_message parse none m = (m, none)
take_message parse (some a) m =
    if str_eq a.topic m.server_disconnect_topic
    then (record m { server_disconnect_pending = true }, none)
    else (m, parse a.payload)

unfoldable pub receive_message :
    (List ℕ → Option ExternalServer) → MqttCommunication → MqttCommunication × Option ExternalServer
receive_message parse m = elim m.client [
  | none ↦ (m, none)
  | some p ↦
      if p.connected
      then take_message parse (head_message p.incoming)
          (record m { client = some (record p { incoming = rest p.incoming }) })
      else (m, none)
]

unfoldable pub consume_server_disconnect_notification : MqttCommunication → MqttCommunication × Bool
consume_server_disconnect_notification m =
    (record m { server_disconnect_pending = false }, m.server_disconnect_pending)
