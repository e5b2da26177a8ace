-- ===== src/ExternalClient/Mqtt/Receiving.antt =====
-- MqttCommunication as a channel: what it will receive, and the notification of a disconnect.
use text.Mathlib.Text.{◌==◌ as str_eq}
use module_gateway.Common.{
  ℕ, String, Bool, true, false, ◌||◌, List, [], ◌∷◌, Option, none, some, map, if◌then◌else◌, ◌≡◌,
  refl, ap, arith, Option-cases, Bool-cases, inl, inr,
}
use module_gateway.ExternalClient.Messages.{ExternalServer}
use module_gateway.ExternalClient.Connection
use module_gateway.ExternalClient.Connection.{rest}
use module_gateway.ExternalClient.Mqtt.{
  Message, AsyncClient, MqttCommunication, is_open, head_message, take_message, receive_message,
  consume_server_disconnect_notification,
}

-- What a message of the broker is for the connection.
abbrev pub decode :
    (List ℕ → Option ExternalServer) → String → Option Message → Option ExternalServer
decode parse disconnect_topic none = none
decode parse disconnect_topic (some a) =
    if str_eq a.topic disconnect_topic then none else parse a.payload

abbrev pub inbox_of_client :
    (List ℕ → Option ExternalServer) → String → Option AsyncClient → List (Option ExternalServer)
inbox_of_client parse disconnect_topic none = []
inbox_of_client parse disconnect_topic (some p) =
    if p.connected then map (decode parse disconnect_topic) p.incoming else []

-- The messages to come, as Channel has them.
abbrev pub inbox_of :
    (List ℕ → Option ExternalServer) → MqttCommunication → List (Option ExternalServer)
inbox_of parse m = inbox_of_client parse m.server_disconnect_topic m.client

abbrev pub is_disconnect : String → Option Message → Bool
is_disconnect disconnect_topic none = false
is_disconnect disconnect_topic (some a) = str_eq a.topic disconnect_topic

-- The message that is consumed next is one on the topic of server disconnects.
abbrev pub starts_with_disconnect : String → Option AsyncClient → Bool
starts_with_disconnect disconnect_topic none = false
starts_with_disconnect disconnect_topic (some p) =
    if p.connected then is_disconnect disconnect_topic (head_message p.incoming) else false

receive_lem :
    (parse : List ℕ → Option ExternalServer) (m : MqttCommunication) (p : AsyncClient)
    (ms : List (Option Message))
    → m.client ≡ some p
    → p.connected ≡ true
    → p.incoming ≡ ms
    → let (after, result) = receive_message parse m in
      (result ≡ Connection.head_message (map (decode parse m.server_disconnect_topic) ms))
      × (inbox_of parse after ≡ rest (map (decode parse m.server_disconnect_topic) ms))
      × (after.server_disconnect_pending ≡ (
          is_disconnect m.server_disconnect_topic (head_message ms) || m.server_disconnect_pending))
unfolding receive_message take_message
receive_lem parse m p [] e is_up i =
    let first = ap (λ l. head_message l) i in
    let left = ap (λ l. rest l) i in
    (
      ground (arith, e, is_up, first),
      ground (arith, e, is_up, first, left),
      ground (arith, e, is_up, first),
    )
receive_lem parse m p (none ∷ ms) e is_up i =
    let first = ap (λ l. head_message l) i in
    let left = ap (λ l. rest l) i in
    (
      ground (arith, e, is_up, first),
      ground (arith, e, is_up, first, left),
      ground (arith, e, is_up, first),
    )
receive_lem parse m p (some a ∷ ms) e is_up i =
    let first = ap (λ l. head_message l) i in
    let left = ap (λ l. rest l) i in
    (
      ground (arith, e, is_up, first),
      ground (arith, e, is_up, first, left),
      ground (arith, e, is_up, first),
    )

closed_lem :
    (parse : List ℕ → Option ExternalServer) (m : MqttCommunication)
    → is_open m.client ≡ false
    → let (received, result) = receive_message parse m in
      let (after, notified) = consume_server_disconnect_notification received in
      (result ≡ Connection.head_message (inbox_of parse m))
      × (inbox_of parse after ≡ rest (inbox_of parse m))
      × (notified ≡ (
          starts_with_disconnect m.server_disconnect_topic m.client || m.server_disconnect_pending))
      × (after.server_disconnect_pending ≡ false)
unfolding consume_server_disconnect_notification receive_message
closed_lem parse m h = elim (Option-cases m.client) [
  | inl e ↦ (ground (arith, e), ground (arith, e), ground (arith, e), refl)
  | inr (p, e) ↦
      let down : p.connected ≡ false = ground (arith, e, h) in
      (ground (arith, e, down), ground (arith, e, down), ground (arith, e, down), refl)
]

-- Receiving does what a channel does whose messages are those of the broker, read by `parse`, and
-- nothing in place of one on the topic of server disconnects, or without a connected client: the
-- result is the first of them, the others are left, and then the notification is given exactly if
-- the message was a disconnect or one was pending, and none is pending any more.
pub receive_message-inbox :
    (parse : List ℕ → Option ExternalServer) (m : MqttCommunication)
    → let (received, result) = receive_message parse m in
      let (after, notified) = consume_server_disconnect_notification received in
      (result ≡ Connection.head_message (inbox_of parse m))
      × (inbox_of parse after ≡ rest (inbox_of parse m))
      × (notified ≡ (
          starts_with_disconnect m.server_disconnect_topic m.client || m.server_disconnect_pending))
      × (after.server_disconnect_pending ≡ false)
unfolding consume_server_disconnect_notification
receive_message-inbox parse m = elim (Option-cases m.client) [
  | inl e ↦ closed_lem parse m (ground (arith, e))
  | inr (p, e) ↦ elim (Bool-cases p.connected) [
    | inl is_up ↦
        let received = receive_lem parse m p p.incoming e is_up refl in
        (
          ground (arith, e, is_up, received.0),
          ground (arith, e, is_up, received.1),
          ground (arith, e, is_up, received.2),
          refl,
        )
    | inr down ↦ closed_lem parse m (ground (arith, e, down))
  ]
]
