-- ===== src/ExternalClient/Quic.antt =====
-- source/bringauto/external_client/connection/communication/QuicCommunication.cpp: the state of the
-- connection and its two queues, here; its streams in Streams, and its handles in Handles. MsQuic is no
-- part of the repository: what its calls return and the events that it raises are arguments.
pub mod Queues
pub mod Streams
pub mod Handles
use text.Mathlib.Text.{◌==◌ as str_eq}
use module_gateway.Common.{
  ℕ, String, Bool, true, false, ◌||◌, List, [], ◌∷◌, ◌++◌, Option, none, some, if◌then◌else◌,
  is_nil,
}
use module_gateway.Common.Dict.{Dict, find}
use module_gateway.Settings.{ExternalConnectionSettings, text_eq}
use module_gateway.Settings.Parser.{Json}
use module_gateway.ExternalClient.Messages.{ExternalClient, ExternalServer}
use module_gateway.ExternalClient.Connection.{
  ConnectionState, not_initialized, not_connected, connecting, connected, closing,
}

pub data StreamMode : Type 0 where
  unidirectional bidirectional : StreamMode

pub record QuicCommunication : Type 0 where
  pub state : ConnectionState
  pub has_connection : Bool
  pub cancel_receive : Bool
  pub inbound_queue : List ExternalServer
  pub outbound_queue : List ExternalClient
  -- The sender thread is in its loop.
  pub is_sending : Bool
  -- The messages that the sender has taken, and whether StreamSend accepted each.
  pub taken : List (ExternalClient × Bool)
  -- The messages that receiveMessage has returned.
  pub received : List ExternalServer

abbrev pub init : QuicCommunication
init = record {
  state = not_connected;
  has_connection = false;
  cancel_receive = false;
  inbound_queue = [];
  outbound_queue = [];
  is_sending = false;
  taken = [];
  received = [];
}

abbrev pub is_not_connected : ConnectionState → Bool
is_not_connected not_connected = true
is_not_connected _ = false

abbrev pub is_connected : ConnectionState → Bool
is_connected connected = true
is_connected _ = false

abbrev pub is_connecting : ConnectionState → Bool
is_connecting connecting = true
is_connecting _ = false

-- The states in which receiveMessage waits.
abbrev pub is_waiting : ConnectionState → Bool
is_waiting connecting = true
is_waiting closing = true
is_waiting connected = true
is_waiting _ = false

-- `initializeConnection`, with whether ConnectionOpen and ConnectionStart succeed.
unfoldable pub initialize_connection : Bool → Bool → QuicCommunication → QuicCommunication
initialize_connection opens starts q =
    let ready = record q { cancel_receive = false } in
    if is_not_connected q.state
    then (if opens
        then (if starts
            then record ready { state = connecting; has_connection = true }
            else record ready { state = not_connected; has_connection = false })
        else record ready { state = not_connected })
    else ready

unfoldable pub send_message : ExternalClient → QuicCommunication → QuicCommunication × Bool
send_message message q =
    if is_not_connected q.state
    then (q, false)
    else (record q { outbound_queue = q.outbound_queue ++ message ∷ [] }, true)

unfoldable pub pop_inbound :
    List ExternalServer → QuicCommunication → QuicCommunication × Option ExternalServer
pop_inbound [] q = (q, none)
pop_inbound (message ∷ messages) q =
    (record q { inbound_queue = messages; received = q.received ++ message ∷ [] }, some message)

-- `receiveMessage` at the end of its wait.
unfoldable pub receive_message : QuicCommunication → QuicCommunication × Option ExternalServer
receive_message q = if is_waiting q.state then pop_inbound q.inbound_queue q else (q, none)

unfoldable pub cancel_receive : QuicCommunication → QuicCommunication
cancel_receive q = record q { cancel_receive = true }

unfoldable pub on_message_decoded : ExternalServer → QuicCommunication → QuicCommunication
on_message_decoded message q = record q { inbound_queue = q.inbound_queue ++ message ∷ [] }

-- QUIC_CONNECTION_EVENT_CONNECTED
unfoldable pub on_connected : QuicCommunication → QuicCommunication
on_connected q =
    if is_connecting q.state then record q { state = connected; is_sending = true } else q

-- QUIC_CONNECTION_EVENT_SHUTDOWN_COMPLETE
unfoldable pub on_shutdown_complete : QuicCommunication → QuicCommunication
on_shutdown_complete q = record q { state = not_connected; has_connection = false }

-- QUIC_CONNECTION_EVENT_SHUTDOWN_INITIATED_BY_PEER
unfoldable pub on_shutdown_by_peer : QuicCommunication → QuicCommunication
on_shutdown_by_peer q = record q { state = closing }

abbrev pub join : List (List ℕ) → List ℕ
join [] = []
join (b ∷ bs) = b ++ join bs

-- QUIC_STREAM_EVENT_RECEIVE: the buffers of one event; `parse` is protobuf's ParseFromArray.
unfoldable pub on_receive :
    (List ℕ → Option ExternalServer) → List (List ℕ) → QuicCommunication → QuicCommunication
on_receive parse [] q = q
on_receive parse (b ∷ bs) q = elim (parse (join (b ∷ bs))) [
  | none ↦ q
  | some message ↦ on_message_decoded message q
]

-- The message that `senderLoop` takes, with whether `sendViaQuicStream` hands it to MsQuic.
unfoldable pub take_outbound : Bool → List ExternalClient → QuicCommunication → QuicCommunication
take_outbound sends [] q = q
take_outbound sends (message ∷ messages) q = record q {
  outbound_queue = messages;
  taken = q.taken ++ (message, sends) ∷ [];
}

-- A round of `senderLoop`, if it runs.
unfoldable pub sender_round : Bool → QuicCommunication → QuicCommunication
sender_round sends q =
    if q.is_sending
    then (if is_connected q.state
        then take_outbound sends q.outbound_queue q
        else record q { is_sending = false })
    else q

module _ (j : Json) where
  -- `getProtocolSettingsString`, where the JSON library throws nothing for what it accepts.
  unfoldable pub get_protocol_settings_string :
      ExternalConnectionSettings → String → String → String
  get_protocol_settings_string settings key default_value =
      elim (find text_eq key settings.protocol_settings) [
        | none ↦ default_value
        | some raw ↦
            if j.accept raw
            then (if j.is_string (j.parse raw) then j.get_string (j.parse raw) else raw)
            else raw
      ]

  unfoldable pub parse_stream_mode : ExternalConnectionSettings → StreamMode
  parse_stream_mode settings =
      let mode = get_protocol_settings_string settings "stream-mode" "" in
      if str_eq mode "unidirectional" || str_eq mode "unidir" then unidirectional else bidirectional
