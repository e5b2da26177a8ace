-- ===== src/ExternalClient/Connection/Sequence/Protocol.antt =====
-- The order of the server's messages in a connect sequence.
use module_gateway.Common.{
  String, true, List, [], ◌∷◌, ◌++◌, none, some, length, drop, replicate, ◌≡◌, refl, sym, ap, ◌∙◌,
  arith, Bool-cases, inl, inr,
}
use module_gateway.Structures.ReturnCode.{is_ok}
use module_gateway.Structures.Device.{DeviceIdentification}
use module_gateway.ExternalClient.Messages.{connect_response, connect_ok}
use module_gateway.ExternalClient.Connection.{
  ExternalConnection, send, receive, head_message, connecting, connected, next, rest,
}
use module_gateway.ExternalClient.Connection.Sequence.{
  connect_message_handle, send_last_statuses, status_message_handle, command_message_handle,
  connect_sequence, initialize_connection,
}
use module_gateway.ExternalClient.Connection.Sequence.Answers.{
  Received, is_connect_response, is_status_response, is_command, answers, protocol, answers-append,
  answers_cons, send_last_statuses-SameInput, receive_status_responses_lem,
  command_message_handle_lem,
}

connect_message_handle_lem :
    (session company vehicle : String) (ds : List DeviceIdentification) (c : ExternalConnection)
    (ms : List Received)
    → c.channel.inbox ≡ ms
    → let first = connect_message_handle session company vehicle ds c in
      is_ok first.1 ≡ true
      → (answers (is_connect_response session ∷ []) ms ≡ true)
        × (first.0.channel.inbox ≡ rest ms)
        × (first.0.session_id ≡ session)
unfolding connect_message_handle send receive answers is_connect_response
connect_message_handle_lem session company vehicle ds c [] e h =
    absurd (ground (arith, ap (λ l. head_message l) e))
connect_message_handle_lem session company vehicle ds c (some (connect_response id connect_ok) ∷ ms)
      e h =
    let first = ap (λ l. head_message l) e in
    let left = ap (λ l. rest l) e in
    (ground (arith, first, h), ground (arith, first, left, h), ground (arith, first, h))
connect_message_handle_lem session company vehicle ds c (some m ∷ ms) e h =
    absurd (ground (arith, ap (λ l. head_message l) e))
connect_message_handle_lem session company vehicle ds c (none ∷ ms) e h =
    absurd (ground (arith, ap (λ l. head_message l) e))

status_message_handle_lem :
    (ds : List DeviceIdentification) (c : ExternalConnection) (ms : List Received)
    → c.channel.inbox ≡ ms
    → is_ok (status_message_handle ds c).1 ≡ true
    → (answers (replicate (length ds) (is_status_response c.session_id)) ms ≡ true)
      × ((status_message_handle ds c).0.channel.inbox ≡ drop (length ds) ms)
unfolding status_message_handle
status_message_handle_lem ds c ms e h =
    let sent = (send_last_statuses ds c).0 in
    let same = send_last_statuses-SameInput ds c in
    elim (Bool-cases (is_ok (send_last_statuses ds c).1)) [
      | inl p ↦
          let received =
            receive_status_responses_lem (length ds) sent ms (same.inbox ∙ e)
              (ground (arith, p, h)) in
          (rw (sym same.session) (received.0), ground (arith, p, received.1))
      | inr p ↦ absurd (ground (arith, p, h))
    ]

connect_sequence_lem :
    (session company vehicle : String) (ds : List DeviceIdentification) (c : ExternalConnection)
    → let result = connect_sequence session company vehicle ds c in
      let n = length ds in
      is_ok result.1 ≡ true
      → (answers (protocol session n) c.channel.inbox ≡ true)
        × (result.0.channel.inbox ≡ drop n (drop n (rest c.channel.inbox)))
unfolding connect_sequence
connect_sequence_lem session company vehicle ds c h =
    let n = length ds in
    let ms = c.channel.inbox in
    let first = connect_message_handle session company vehicle ds c in
    let second = status_message_handle ds first.0 in
    let third = command_message_handle n second.0 in
    let is_first : is_ok first.1 ≡ true = ground (arith, h) in
    let is_second : is_ok second.1 ≡ true = ground (arith, h) in
    let is_third : is_ok third.1 ≡ true = ground (arith, h) in
    let connecting = connect_message_handle_lem session company vehicle ds c ms refl is_first in
    let statuses = status_message_handle_lem ds first.0 (rest ms) connecting.1 is_second in
    let commands = command_message_handle_lem n second.0 (drop n (rest ms)) statuses.1 is_third in
    let later = rw connecting.2 at statuses.0 in
    let both =
      answers-append n (is_status_response session) (replicate n is_command) (rest ms) later
        commands.0 in
    (
      answers_cons (is_connect_response session)
          (replicate n (is_status_response session) ++ replicate n is_command) ms connecting.0 both,
      ground (arith, is_first, is_second, commands.1),
    )

-- If a connection is established, then the channel was open, and the server has answered by the
-- protocol: a connect response with the session, a status response for each device with the session,
-- and a command for each device, in this order; and the connection has taken these messages and no
-- others. Then it is connected and listens.
pub initialize_connection-protocol :
    (session company vehicle : String) (ds : List DeviceIdentification) (c : ExternalConnection)
    → let result = initialize_connection session company vehicle ds c in
      let n = length ds in
      is_ok result.1 ≡ true
      → (next c.channel.opens ≡ true)
        × (answers (protocol session n) c.channel.inbox ≡ true)
        × (result.0.channel.inbox ≡ drop n (drop n (rest c.channel.inbox)))
        × (result.0.state ≡ connected)
        × (result.0.listening ≡ true)
unfolding initialize_connection
initialize_connection-protocol session company vehicle ds c h =
    let opening = record c {
      state = connecting;
      channel = record c.channel { opens = rest c.channel.opens };
    } in
    let done : is_ok (connect_sequence session company vehicle ds opening).1 ≡ true =
      ground (arith, h) in
    let lem = connect_sequence_lem session company vehicle ds opening done in
    (ground (arith, h), lem.0, ground (arith, h, lem.1), ground (arith, h), ground (arith, h))
