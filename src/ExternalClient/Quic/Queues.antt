-- ===== src/ExternalClient/Quic/Queues.antt =====
-- What goes through the queues of QuicCommunication, in any order of calls and events.
use mathlib.Core.List.{append_assoc, append-nil, map-append}
use module_gateway.Common.{
  ℕ, Bool, List, [], ◌∷◌, ◌++◌, Option, none, some, map, if◌then◌else◌, ◌≡◌, refl, sym, ap, ◌∙◌,
  arith, Option-cases, inl, inr,
}
use module_gateway.ExternalClient.Messages.{ExternalClient, ExternalServer}
use module_gateway.ExternalClient.Quic.{
  QuicCommunication, is_not_connected, initialize_connection, send_message, pop_inbound,
  receive_message, cancel_receive, on_message_decoded, on_connected, on_shutdown_complete,
  on_shutdown_by_peer, on_receive, join, take_outbound, sender_round,
}

-- The calls of a channel, the events of MsQuic, and the rounds of the sender.
pub data Event : Type 0 where
  initialize_call : Bool → Bool → Event
  send_call : ExternalClient → Event
  receive_call cancel_call : Event
  connected_event shutdown_complete_event shutdown_by_peer_event : Event
  receive_event : List (List ℕ) → Event
  sender_event : Bool → Event

abbrev pub outgoing : QuicCommunication → List ExternalClient
outgoing q = map (λ t. t.0) q.taken ++ q.outbound_queue

abbrev pub incoming : QuicCommunication → List ExternalServer
incoming q = q.received ++ q.inbound_queue

pop_inbound-outgoing :
    (ms : List ExternalServer) (q : QuicCommunication) → outgoing (pop_inbound ms q).0 ≡ outgoing q
unfolding pop_inbound
pop_inbound-outgoing [] q = refl
pop_inbound-outgoing (m ∷ ms) q = refl

pop_inbound-incoming :
    (ms : List ExternalServer) (q : QuicCommunication)
    → q.inbound_queue ≡ ms
    → incoming (pop_inbound ms q).0 ≡ incoming q
unfolding pop_inbound
pop_inbound-incoming [] q e = refl
pop_inbound-incoming (m ∷ ms) q e =
    append_assoc q.received (m ∷ []) ms ∙ ap (λ l. q.received ++ l) (sym e)

take_outbound-incoming :
    (sends : Bool) (ms : List ExternalClient) (q : QuicCommunication)
    → incoming (take_outbound sends ms q) ≡ incoming q
unfolding take_outbound
take_outbound-incoming sends [] q = refl
take_outbound-incoming sends (m ∷ ms) q = refl

take_outbound-outgoing :
    (sends : Bool) (ms : List ExternalClient) (q : QuicCommunication)
    → q.outbound_queue ≡ ms
    → outgoing (take_outbound sends ms q) ≡ outgoing q
unfolding take_outbound
take_outbound-outgoing sends [] q e = refl
take_outbound-outgoing sends (m ∷ ms) q e =
    ap (λ l. l ++ ms) (map-append (λ t. t.0) q.taken ((m, sends) ∷ []))
    ∙ append_assoc (map (λ t. t.0) q.taken) (m ∷ []) ms
    ∙ ap (λ l. map (λ t. t.0) q.taken ++ l) (sym e)

module _ (parse : List ℕ → Option ExternalServer) where
  unfoldable pub step : QuicCommunication → Event → QuicCommunication
  step q (initialize_call opens starts) = initialize_connection opens starts q
  step q (send_call message) = (send_message message q).0
  step q receive_call = (receive_message q).0
  step q cancel_call = cancel_receive q
  step q connected_event = on_connected q
  step q shutdown_complete_event = on_shutdown_complete q
  step q shutdown_by_peer_event = on_shutdown_by_peer q
  step q (receive_event buffers) = on_receive parse buffers q
  step q (sender_event sends) = sender_round sends q

  unfoldable pub run : QuicCommunication → List Event → QuicCommunication
  run q [] = q
  run q (e ∷ es) = run (step q e) es

  -- The message that a call accepts for sending.
  abbrev pub accepted_by : QuicCommunication → Event → List ExternalClient
  accepted_by q (send_call message) = if is_not_connected q.state then [] else message ∷ []
  accepted_by q _ = []

  abbrev pub accepted : QuicCommunication → List Event → List ExternalClient
  accepted q [] = []
  accepted q (e ∷ es) = accepted_by q e ++ accepted (step q e) es

  -- The message that an event brings.
  abbrev pub decoded_by : Event → List ExternalServer
  decoded_by (receive_event (b ∷ bs)) = elim (parse (join (b ∷ bs))) [
    | none ↦ []
    | some message ↦ message ∷ []
  ]
  decoded_by _ = []

  abbrev pub decoded : List Event → List ExternalServer
  decoded [] = []
  decoded (e ∷ es) = decoded_by e ++ decoded es

  step-outgoing :
      (q : QuicCommunication) (e : Event) → outgoing (step q e) ≡ outgoing q ++ accepted_by q e
  unfolding step initialize_connection send_message receive_message cancel_receive on_connected
      on_shutdown_complete on_shutdown_by_peer on_receive on_message_decoded sender_round
  step-outgoing q (initialize_call opens starts) = ground (arith, append-nil (outgoing q))
  step-outgoing q (send_call message) = ground (
    arith,
    append-nil (outgoing q),
    append_assoc (map (λ t. t.0) q.taken) q.outbound_queue (message ∷ []),
  )
  step-outgoing q receive_call =
      ground (arith, append-nil (outgoing q), pop_inbound-outgoing q.inbound_queue q)
  step-outgoing q cancel_call = sym (append-nil (outgoing q))
  step-outgoing q connected_event = ground (arith, append-nil (outgoing q))
  step-outgoing q shutdown_complete_event = sym (append-nil (outgoing q))
  step-outgoing q shutdown_by_peer_event = sym (append-nil (outgoing q))
  step-outgoing q (receive_event []) = sym (append-nil (outgoing q))
  step-outgoing q (receive_event (b ∷ bs)) = elim (Option-cases (parse (join (b ∷ bs)))) [
    | inl e ↦ ground (arith, e, append-nil (outgoing q))
    | inr (m, e) ↦ ground (arith, e, append-nil (outgoing q))
  ]
  step-outgoing q (sender_event sends) =
      ground (arith, append-nil (outgoing q), take_outbound-outgoing sends q.outbound_queue q refl)

  step-incoming :
      (q : QuicCommunication) (e : Event) → incoming (step q e) ≡ incoming q ++ decoded_by e
  unfolding step initialize_connection send_message receive_message cancel_receive on_connected
      on_shutdown_complete on_shutdown_by_peer on_receive on_message_decoded sender_round
  step-incoming q (initialize_call opens starts) = ground (arith, append-nil (incoming q))
  step-incoming q (send_call message) = ground (arith, append-nil (incoming q))
  step-incoming q receive_call =
      ground (arith, append-nil (incoming q), pop_inbound-incoming q.inbound_queue q refl)
  step-incoming q cancel_call = sym (append-nil (incoming q))
  step-incoming q connected_event = ground (arith, append-nil (incoming q))
  step-incoming q shutdown_complete_event = sym (append-nil (incoming q))
  step-incoming q shutdown_by_peer_event = sym (append-nil (incoming q))
  step-incoming q (receive_event []) = sym (append-nil (incoming q))
  step-incoming q (receive_event (b ∷ bs)) = elim (Option-cases (parse (join (b ∷ bs)))) [
    | inl e ↦ ground (arith, e, append-nil (incoming q))
    | inr (m, e) ↦ ground (arith, e, append_assoc q.received q.inbound_queue (m ∷ []))
  ]
  step-incoming q (sender_event sends) =
      ground (arith, append-nil (incoming q), take_outbound-incoming sends q.outbound_queue q)

  -- Whatever the calls, the events and the rounds of the sender are, also over several connections:
  -- the messages that the sender has taken, then those queued, are those of the start followed by the
  -- ones that `sendMessage` has accepted, in their order; and the messages that `receiveMessage` has
  -- returned, then those queued, are those of the start followed by the ones that the events of the
  -- streams brought.
  pub run-queues :
      (q : QuicCommunication) (es : List Event)
      → (outgoing (run q es) ≡ outgoing q ++ accepted q es)
        × (incoming (run q es) ≡ incoming q ++ decoded es)
  unfolding run
  run-queues q [] = (sym (append-nil (outgoing q)), sym (append-nil (incoming q)))
  run-queues q (e ∷ es) =
      let (sent, got) = run-queues (step q e) es in
      (
        sent
            ∙ ap (λ l. l ++ accepted (step q e) es) (step-outgoing q e)
            ∙ append_assoc (outgoing q) (accepted_by q e) (accepted (step q e) es),
        got
            ∙ ap (λ l. l ++ decoded es) (step-incoming q e)
            ∙ append_assoc (incoming q) (decoded_by e) (decoded es),
      )
