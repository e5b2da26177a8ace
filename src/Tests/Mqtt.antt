-- ===== src/Tests/Mqtt.antt =====
-- The theorem on the MQTT channel, applied to a client with a message of each kind.
use module_gateway.Common.{ℕ, true, false, ◌||◌, List, [], ◌∷◌, Option, none, some, ◌≡◌}
use module_gateway.ExternalClient.Messages.{ExternalServer, nothing_set}
use module_gateway.ExternalClient.Connection
use module_gateway.ExternalClient.Connection.{rest}
use module_gateway.ExternalClient.Mqtt.{
  AsyncClient, MqttCommunication, receive_message, consume_server_disconnect_notification,
}
use module_gateway.ExternalClient.Mqtt.Receiving.{
  inbox_of, starts_with_disconnect, receive_message-inbox,
}

abbrev sample_client : AsyncClient
sample_client = record {
  connected = true;
  incoming =
      some (record { topic = "gone"; payload = [] })
      ∷ none
      ∷ some (record { topic = "in"; payload = 1 ∷ [] })
      ∷ [];
  published = [];
  subscriptions = "in" ∷ "gone" ∷ [];
}

abbrev sample_channel : MqttCommunication
sample_channel = record {
  client = some sample_client;
  client_id = "company/car";
  publish_topic = "out";
  subscribe_topic = "in";
  server_disconnect_topic = "gone";
  server_disconnect_pending = false;
  server_address = "127.0.0.1:1883";
}

abbrev sample_parse : List ℕ → Option ExternalServer
sample_parse bytes = some nothing_set

receive_message-inbox_example :
    let (received, result) = receive_message sample_parse sample_channel in
    let (after, notified) = consume_server_disconnect_notification received in
    (result ≡ Connection.head_message (inbox_of sample_parse sample_channel))
    × (inbox_of sample_parse after ≡ rest (inbox_of sample_parse sample_channel))
    × (notified ≡ (starts_with_disconnect "gone" (some sample_client) || false))
    × (after.server_disconnect_pending ≡ false)
receive_message-inbox_example = receive_message-inbox sample_parse sample_channel
