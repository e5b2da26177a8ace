-- ===== src/ExternalClient/Connection/Sequence/Answers.antt =====
-- The answers that the steps of a connect sequence take.
use text.Mathlib.Text.{◌==◌ as str_eq}
use module_gateway.Common.{
  ℕ, zero, suc, String, Bool, true, false, ◌&&◌, List, [], ◌∷◌, ◌++◌, Option, none, some, drop,
  replicate, ◌≡◌, refl, ap, ◌∙◌, arith, Option-cases, Bool-cases, inl, inr,
}
use module_gateway.Common.Dict.{find}
use module_gateway.Common.Dict.Numbers.{number_eq}
use module_gateway.Structures.Buffer.{Buffer, empty_buffer}
use module_gateway.Structures.ReturnCode.{is_ok}
use module_gateway.Structures.Device.{DeviceIdentification}
use module_gateway.Structures.Messages.{DeviceStatus}
use module_gateway.ExternalClient.Messages.{
  StatusState, create_device_status, ExternalServer, connect_response, connect_ok, status_response,
  status_ok, command, Command,
}
use module_gateway.ExternalClient.SentMessages.{acknowledge_status}
use module_gateway.ExternalClient.ErrorAggregator.{get_last_status, get_error}
use module_gateway.ExternalClient.Connection.{
  ExternalConnection, send, receive, send_marked, send_status, deinitialize_connection, aggregate,
  head_message, fill_error_aggregator_with_not_acked_statuses, rest,
}
use module_gateway.ExternalClient.Connection.Commands.{handle_command, answer_command}
use module_gateway.ExternalClient.Connection.Sequence.{
  send_last_statuses, receive_status_responses, command_message_handle,
}

abbrev pub Received : Type 0
Received = Option ExternalServer

-- What the server has to answer, message by message.
unfoldable pub is_connect_response : String → Received → Bool
is_connect_response session (some (connect_response id connect_ok)) = str_eq id session
is_connect_response session _ = false

unfoldable pub is_status_response : String → Received → Bool
is_status_response session (some (status_response id status_ok counter)) = str_eq id session
is_status_response session _ = false

unfoldable pub is_command : Received → Bool
is_command (some (command m)) = true
is_command _ = false

-- Whether the messages start with ones that pass the tests, in order.
unfoldable pub answers : List (Received → Bool) → List Received → Bool
answers [] ms = true
answers (p ∷ ps) [] = false
answers (p ∷ ps) (m ∷ ms) = p m && answers ps ms

-- The answers to a connect sequence: the connect response, a status response for each device, and
-- then a command for each.
abbrev pub protocol : String → ℕ → List (Received → Bool)
protocol session n =
    is_connect_response session ∷ replicate n (is_status_response session) ++ replicate n is_command

pub answers-append :
    (n : ℕ) (p : Received → Bool) (qs : List (Received → Bool)) (ms : List Received)
    → answers (replicate n p) ms ≡ true
    → answers qs (drop n ms) ≡ true
    → answers (replicate n p ++ qs) ms ≡ true
unfolding answers
answers-append zero p qs ms h k = k
answers-append (suc n) p qs [] h k = absurd (ground arith)
answers-append (suc n) p qs (m ∷ ms) h k = ground (arith, answers-append n p qs ms)

pub answers_cons :
    (p : Received → Bool) (qs : List (Received → Bool)) (ms : List Received)
    → answers (p ∷ []) ms ≡ true
    → answers qs (rest ms) ≡ true
    → answers (p ∷ qs) ms ≡ true
unfolding answers
answers_cons p qs [] h k = h
answers_cons p qs (m ∷ ms) h k = ground (arith, h, k)

-- The same messages to come, in the same session.
pub record SameInput (c d : ExternalConnection) : Type 0 where
  pub inbox : d.channel.inbox ≡ c.channel.inbox
  pub session : d.session_id ≡ c.session_id

same_trans : (c d e : ExternalConnection) → SameInput c d → SameInput d e → SameInput c e
same_trans c d e p q = record { inbox = q.inbox ∙ p.inbox; session = q.session ∙ p.session }

send_marked-SameInput :
    (s : DeviceStatus) (state : StatusState) (error : Buffer) (c : ExternalConnection)
    → SameInput c (send_marked s state error c)
unfolding send_marked send deinitialize_connection fill_error_aggregator_with_not_acked_statuses
send_marked-SameInput s state error c = record { inbox = ground arith; session = ground arith }

send_status-SameInput :
    (s : DeviceStatus) (state : StatusState) (error : Buffer) (c : ExternalConnection)
    → SameInput c (send_status s state error c)
unfolding send_status
send_status-SameInput s state error c =
    let first = record c { error_aggregators = aggregate s c.error_aggregators } in
    let p = send_marked-SameInput s state error c in
    let q = send_marked-SameInput s StatusState.connecting error first in
    record {
      inbox = ground (arith, p.inbox, q.inbox);
      session = ground (arith, p.session, q.session);
    }

pub send_last_statuses-SameInput :
    (ds : List DeviceIdentification) (c : ExternalConnection)
    → SameInput c (send_last_statuses ds c).0
unfolding send_last_statuses
send_last_statuses-SameInput [] c = record { inbox = refl; session = refl }
send_last_statuses-SameInput (d ∷ ds) c =
    elim (Option-cases (find number_eq d.module_number c.error_aggregators)) [
      | inl p ↦ record { inbox = ground arith; session = ground arith }
      | inr (a, p) ↦
          let last =
            create_device_status d (get_last_status a.library a.devices empty_buffer d).0 in
          let error = (get_error a.library a.devices empty_buffer d).0 in
          let now = send_status-SameInput last StatusState.connecting error c in
          let later =
            send_last_statuses-SameInput ds (send_status last StatusState.connecting error c) in
          record {
            inbox = ground (arith, now.inbox, later.inbox);
            session = ground (arith, now.session, later.session);
          }
    ]

handle_command-SameInput :
    (m : Command) (c : ExternalConnection) → SameInput c (handle_command m c).0
unfolding handle_command answer_command send
handle_command-SameInput m c = record { inbox = ground arith; session = ground arith }

pub receive_status_responses_lem :
    (n : ℕ) (c : ExternalConnection) (ms : List Received)
    → c.channel.inbox ≡ ms
    → is_ok (receive_status_responses n c).1 ≡ true
    → (answers (replicate n (is_status_response c.session_id)) ms ≡ true)
      × ((receive_status_responses n c).0.channel.inbox ≡ drop n ms)
unfolding receive_status_responses receive answers is_status_response
receive_status_responses_lem zero c ms e h = (refl, e)
receive_status_responses_lem (suc n) c [] e h = absurd (ground (arith, ap (λ l. head_message l) e))
receive_status_responses_lem (suc n) c (none ∷ ms) e h =
    absurd (ground (arith, ap (λ l. head_message l) e))
receive_status_responses_lem (suc n) c (some (status_response id status_ok counter) ∷ ms) e h =
    let first = ap (λ l. head_message l) e in
    let d : ExternalConnection = record c {
      channel = record c.channel { inbox = rest c.channel.inbox };
      sent_messages = (acknowledge_status c.sent_messages counter).0;
    } in
    elim (Bool-cases (str_eq id c.session_id)) [
      | inl p ↦
          let later =
            receive_status_responses_lem n d ms (ap (λ l. rest l) e)
              (ground (arith, first, p, h)) in
          (ground (arith, p, later.0), ground (arith, first, p, later.1))
      | inr p ↦ absurd (ground (arith, first, p, h))
    ]
receive_status_responses_lem (suc n) c (some m ∷ ms) e h =
    absurd (ground (arith, ap (λ l. head_message l) e))

pub command_message_handle_lem :
    (n : ℕ) (c : ExternalConnection) (ms : List Received)
    → c.channel.inbox ≡ ms
    → is_ok (command_message_handle n c).1 ≡ true
    → (answers (replicate n is_command) ms ≡ true)
      × ((command_message_handle n c).0.channel.inbox ≡ drop n ms)
unfolding command_message_handle receive answers is_command
command_message_handle_lem zero c ms e h = (refl, e)
command_message_handle_lem (suc n) c [] e h = absurd (ground (arith, ap (λ l. head_message l) e))
command_message_handle_lem (suc n) c (none ∷ ms) e h =
    absurd (ground (arith, ap (λ l. head_message l) e))
command_message_handle_lem (suc n) c (some (command m) ∷ ms) e h =
    let first = ap (λ l. head_message l) e in
    let d = record c { channel = record c.channel { inbox = rest c.channel.inbox } } in
    let handled = (handle_command m d).0 in
    let same = handle_command-SameInput m d in
    elim (Bool-cases (is_ok (handle_command m d).1)) [
      | inl p ↦
          let later =
            command_message_handle_lem n handled ms (same.inbox ∙ ap (λ l. rest l) e)
              (ground (arith, first, p, h)) in
          (ground (arith, p, later.0), ground (arith, first, p, later.1))
      | inr p ↦ absurd (ground (arith, first, p, h))
    ]
command_message_handle_lem (suc n) c (some m ∷ ms) e h =
    absurd (ground (arith, ap (λ l. head_message l) e))
