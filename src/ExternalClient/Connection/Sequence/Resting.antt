-- ===== src/ExternalClient/Connection/Sequence/Resting.antt =====
-- What the steps of a connect sequence after its statuses leave alone, where no status waits to be
-- acknowledged.
use module_gateway.Common.{
  ℕ, zero, suc, Bool, true, false, List, [], ◌∷◌, ◌++◌, none, ◌≡◌, refl, sym, ap, ◌∙◌, All,
  All-append, arith, Option-cases, Bool-cases, inl, inr,
}
use module_gateway.Common.Dict.{find}
use module_gateway.Common.Dict.Numbers.{number_eq}
use module_gateway.ExternalClient.Messages.{
  ExternalClient, Command, command, command_response, status_response, connect_response,
  nothing_set, status_ok, other_type,
}
use mathlib.Core.List.{append_assoc, append-nil}
use module_gateway.ExternalClient.Connection.Commands.{
  handle_command, answer_command, response_type,
}
use module_gateway.ExternalClient.SentMessages.{SentMessagesHandler, acknowledge_status, take_acked}
use module_gateway.ExternalClient.Connection.{
  ErrorAggregator, ExternalConnection, next, send, receive, head_message,
}
use module_gateway.ExternalClient.Connection.Sequence.{
  receive_status_responses, command_message_handle,
}

abbrev pub is_command_response : ExternalClient → Bool
is_command_response (command_response session type counter) = true
is_command_response _ = false

-- What the rest of a connect sequence leaves, where no status waits to be acknowledged, and what it
-- sends.
pub record Rests (c after : ExternalConnection) : Type 0 where
  pub aggregators : after.error_aggregators ≡ c.error_aggregators
  pub none_waits : after.sent_messages.not_acked_statuses ≡ []
  pub same_counter : after.client_message_counter ≡ c.client_message_counter
  pub sent : List ExternalClient
  pub outbox : after.channel.outbox ≡ c.channel.outbox ++ sent
  pub responses : All (λ r. is_command_response r ≡ true) sent

pub then-Rests : (c d e : ExternalConnection) → Rests c d → Rests d e → Rests c e
then-Rests c d e p q = record {
  aggregators = q.aggregators ∙ p.aggregators;
  none_waits = q.none_waits;
  same_counter = q.same_counter ∙ p.same_counter;
  sent = p.sent ++ q.sent;
  outbox = q.outbox ∙ ap (λ l. l ++ q.sent) p.outbox ∙ append_assoc c.channel.outbox p.sent q.sent;
  responses = All-append (λ r. is_command_response r ≡ true) p.sent q.sent p.responses q.responses;
}

stays_lem :
    (c d : ExternalConnection)
    → d.error_aggregators ≡ c.error_aggregators
    → d.sent_messages.not_acked_statuses ≡ []
    → d.client_message_counter ≡ c.client_message_counter
    → d.channel.outbox ≡ c.channel.outbox
    → Rests c d
stays_lem c d a n k o = record {
  aggregators = a;
  none_waits = n;
  same_counter = k;
  sent = [];
  outbox = o ∙ sym (append-nil c.channel.outbox);
  responses = tt;
}

acknowledge_status_none_lem :
    (h : SentMessagesHandler) (counter : ℕ)
    → h.not_acked_statuses ≡ []
    → (acknowledge_status h counter).0.not_acked_statuses ≡ []
unfolding acknowledge_status take_acked
acknowledge_status_none_lem h counter e =
    let gone : take_acked counter h.not_acked_statuses ≡ none = ap (take_acked counter) e in
    ground (arith, gone, e)

pub receive_status_responses-Rests :
    (n : ℕ) (c : ExternalConnection)
    → c.sent_messages.not_acked_statuses ≡ []
    → Rests c (receive_status_responses n c).0
unfolding receive_status_responses receive
receive_status_responses-Rests zero c w = stays_lem c c refl w refl refl
receive_status_responses-Rests (suc n) c w =
    let answered = (receive c).0 in
    let stays : Rests c answered = stays_lem c answered refl w refl refl in
    elim (Option-cases (head_message c.channel.inbox)) [
      | inl e ↦ ground (arith, e, stays)
      | inr (connect_response id type, e) ↦ ground (arith, e, stays)
      | inr (command m, e) ↦ ground (arith, e, stays)
      | inr (nothing_set, e) ↦ ground (arith, e, stays)
      | inr (status_response id (other_type t) counter, e) ↦ ground (arith, e, stays)
      | inr (status_response id status_ok counter, e) ↦
          let acked = record answered {
            sent_messages = (acknowledge_status answered.sent_messages counter).0;
          } in
          let none_left : acked.sent_messages.not_acked_statuses ≡ [] =
            acknowledge_status_none_lem answered.sent_messages counter w in
          let first : Rests c acked = stays_lem c acked refl none_left refl refl in
          let later =
            then-Rests c acked (receive_status_responses n acked).0 first
              (receive_status_responses-Rests n acked none_left) in
          ground (arith, e, stays, later)
    ]

answer_command-Rests :
    (m : Command) (a : ErrorAggregator) (c : ExternalConnection)
    → c.sent_messages.not_acked_statuses ≡ []
    → Rests c (answer_command m a c)
unfolding answer_command send
answer_command-Rests m a c w =
    let type = response_type c a m.device_command.device in
    elim (Bool-cases (next c.channel.accepts)) [
      | inl e ↦ record {
        aggregators = refl;
        none_waits = w;
        same_counter = refl;
        sent = command_response c.session_id type m.message_counter ∷ [];
        outbox = unfold response_type in ground (arith, e);
        responses = (refl, tt);
      }
      | inr e ↦ stays_lem c (answer_command m a c) refl w refl (ground (arith, e))
    ]

handle_command-Rests :
    (m : Command) (c : ExternalConnection)
    → c.sent_messages.not_acked_statuses ≡ []
    → Rests c (handle_command m c).0
unfolding handle_command
handle_command-Rests m c w =
    let counted = record c { server_message_counter = m.message_counter } in
    let stays : Rests c c = stays_lem c c refl w refl refl in
    let counts : Rests c counted = stays_lem c counted refl w refl refl in
    elim (Option-cases (find number_eq m.device_command.device.module_number c.error_aggregators)) [
      | inl e ↦ ground (arith, e, stays, counts)
      | inr (a, e) ↦
          let answers =
            then-Rests c counted (answer_command m a counted) counts
              (answer_command-Rests m a counted w) in
          ground (arith, e, stays, answers)
    ]

pub command_message_handle-Rests :
    (k : ℕ) (c : ExternalConnection)
    → c.sent_messages.not_acked_statuses ≡ []
    → Rests c (command_message_handle k c).0
unfolding command_message_handle receive
command_message_handle-Rests zero c w = stays_lem c c refl w refl refl
command_message_handle-Rests (suc k) c w =
    let answered = (receive c).0 in
    let stays : Rests c answered = stays_lem c answered refl w refl refl in
    elim (Option-cases (head_message c.channel.inbox)) [
      | inl e ↦ ground (arith, e, stays)
      | inr (connect_response id type, e) ↦ ground (arith, e, stays)
      | inr (status_response id type counter, e) ↦ ground (arith, e, stays)
      | inr (nothing_set, e) ↦ ground (arith, e, stays)
      | inr (command m, e) ↦
          let handled = (handle_command m answered).0 in
          let first = then-Rests c answered handled stays (handle_command-Rests m answered w) in
          let later =
            then-Rests c handled (command_message_handle k handled).0 first
              (command_message_handle-Rests k handled first.none_waits) in
          ground (arith, e, stays, first, later)
    ]
