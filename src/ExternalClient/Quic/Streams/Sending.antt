-- ===== src/ExternalClient/Quic/Streams/Sending.antt =====
-- What the sender of QuicCommunication hands to MsQuic, in any order of calls and events.
use mathlib.Core.List.{append-nil, map-append}
use module_gateway.Common.{
  ℕ, Bool, true, false, List, [], ◌∷◌, ◌++◌, Option, none, some, map, ◌≡◌, refl, sym, ap, ◌∙◌,
  arith, Option-cases, inl, inr,
}
use module_gateway.ExternalClient.Messages.{ExternalClient, ExternalServer}
use module_gateway.ExternalClient.Quic.{
  StreamMode, QuicCommunication, take_outbound, sender_round, initialize_connection, send_message,
  receive_message, pop_inbound, cancel_receive, on_connected, on_shutdown_complete,
  on_shutdown_by_peer, on_receive, on_message_decoded, join,
}
use module_gateway.ExternalClient.Quic.Queues
use module_gateway.ExternalClient.Quic.Queues.{
  Event, initialize_call, send_call, receive_call, cancel_call, connected_event,
  shutdown_complete_event, shutdown_by_peer_event, receive_event, sender_event,
}
use module_gateway.ExternalClient.Quic.Streams.Calls.{of_each, bytes_by, of_each-append}
use module_gateway.ExternalClient.Quic.Streams.{
  Call, stream_open, stream_send, stream_shutdown, Streams, call, allocate, free,
  stream_send_buffer, send_on_stream, send_via_quic_stream, is_handed_over, send_outbound,
  sender_loop,
}

-- The bytes of the sends that MsQuic accepted.
abbrev pub bytes_sent : List Call → List (List ℕ)
bytes_sent = of_each bytes_by

-- The messages that were taken and handed over.
abbrev pub handed_over : List (ExternalClient × Bool) → List ExternalClient
handed_over [] = []
handed_over ((message, true) ∷ ts) = message ∷ handed_over ts
handed_over ((message, false) ∷ ts) = handed_over ts

handed_over-append :
    (ts us : List (ExternalClient × Bool))
    → handed_over (ts ++ us) ≡ handed_over ts ++ handed_over us
handed_over-append [] us = refl
handed_over-append ((message, true) ∷ ts) us = ap (λ l. message ∷ l) (handed_over-append ts us)
handed_over-append ((message, false) ∷ ts) us = handed_over-append ts us

call-bytes_sent :
    (c : Call) (s : Streams)
    → bytes_sent (call c s).calls ≡ bytes_sent s.calls ++ bytes_sent (c ∷ [])
unfolding call
call-bytes_sent c s = of_each-append bytes_by s.calls (c ∷ [])

-- A call other than an accepted StreamSend.
call-quiet :
    (c : Call) (s : Streams)
    → bytes_sent (c ∷ []) ≡ []
    → bytes_sent (call c s).calls ≡ bytes_sent s.calls
call-quiet c s e =
    call-bytes_sent c s ∙ ap (λ l. bytes_sent s.calls ++ l) e ∙ append-nil (bytes_sent s.calls)

abbrev pub bytes_of : Option (List ℕ) → Bool → List (List ℕ)
bytes_of (some bytes) true = bytes ∷ []
bytes_of _ _ = []

send_via_quic_stream-bytes_sent :
    (mode : StreamMode) (bytes : Option (List ℕ)) (opened : Option ℕ) (sends : Bool) (s : Streams)
    → bytes_sent (send_via_quic_stream mode bytes opened sends s).calls
      ≡ bytes_sent s.calls ++ bytes_of bytes (is_handed_over bytes opened sends)
unfolding send_via_quic_stream send_on_stream stream_send_buffer allocate free
send_via_quic_stream-bytes_sent mode none none sends s = call-bytes_sent (stream_open mode none) s
send_via_quic_stream-bytes_sent mode (some bytes) none sends s =
    call-bytes_sent (stream_open mode none) s
send_via_quic_stream-bytes_sent mode none (some stream) sends s =
    let after = call (stream_open mode (some stream)) s in
    call-bytes_sent (stream_shutdown stream) (allocate after)
    ∙ ap (λ l. l ++ []) (call-quiet (stream_open mode (some stream)) s refl)
send_via_quic_stream-bytes_sent mode (some bytes) (some stream) true s =
    let after = call (stream_open mode (some stream)) s in
    call-bytes_sent (stream_send stream after.next bytes true) (allocate after)
    ∙ ap (λ l. l ++ bytes ∷ []) (call-quiet (stream_open mode (some stream)) s refl)
send_via_quic_stream-bytes_sent mode (some bytes) (some stream) false s =
    let after = call (stream_open mode (some stream)) s in
    let sent = call (stream_send stream after.next bytes false) (allocate after) in
    call-bytes_sent (stream_shutdown stream) sent
    ∙ ap (λ l. l ++ [])
        (call-quiet (stream_send stream after.next bytes false) (allocate after) refl
          ∙ call-quiet (stream_open mode (some stream)) s refl)

-- The message that is taken, if it is handed over, serializes to the bytes that are sent.
handed_over-bytes_of :
    (serialize : ExternalClient → Option (List ℕ)) (message : ExternalClient)
    (bytes : Option (List ℕ)) (opened : Option ℕ) (sends : Bool)
    → serialize message ≡ bytes
    → map serialize (handed_over ((message, is_handed_over bytes opened sends) ∷ []))
      ≡ map some (bytes_of bytes (is_handed_over bytes opened sends))
handed_over-bytes_of serialize message none opened sends e = refl
handed_over-bytes_of serialize message (some bytes) none sends e = refl
handed_over-bytes_of serialize message (some bytes) (some stream) true e = ap (λ b. b ∷ []) e
handed_over-bytes_of serialize message (some bytes) (some stream) false e = refl

pop_inbound-taken :
    (ms : List ExternalServer) (q : QuicCommunication) → (pop_inbound ms q).0.taken ≡ q.taken
unfolding pop_inbound
pop_inbound-taken [] q = refl
pop_inbound-taken (m ∷ ms) q = refl

module _ (parse : List ℕ → Option ExternalServer) (serialize : ExternalClient → Option (List ℕ))
    (mode : StreamMode) where
  -- An event, and the stream that StreamOpen makes if it is a round of the sender.
  unfoldable pub step : QuicCommunication × Streams → Event × Option ℕ → QuicCommunication × Streams
  step t (sender_event sends, opened) = sender_loop serialize mode opened sends t
  step (q, s) (e, opened) = (Queues.step parse q e, s)

  unfoldable pub run :
      QuicCommunication × Streams → List (Event × Option ℕ) → QuicCommunication × Streams
  run t [] = t
  run t (e ∷ es) = run (step t e) es

  -- Whether the sender hands the next message of its queue to MsQuic.
  abbrev pub hands_over : List ExternalClient → Option ℕ → Bool → Bool
  hands_over [] opened sends = false
  hands_over (message ∷ messages) opened sends = is_handed_over (serialize message) opened sends

  -- The event without the streams.
  abbrev pub plain : QuicCommunication → Event × Option ℕ → Event
  plain q (sender_event sends, opened) = sender_event (hands_over q.outbound_queue opened sends)
  plain q (e, opened) = e

  abbrev pub plain_all : QuicCommunication × Streams → List (Event × Option ℕ) → List Event
  plain_all t [] = []
  plain_all t (e ∷ es) = plain t.0 e ∷ plain_all (step t e) es

  abbrev pub Agree : QuicCommunication × Streams → Type 0
  Agree t = map serialize (handed_over t.0.taken) ≡ map some (bytes_sent t.1.calls)

  send_outbound-plain :
      (opened : Option ℕ) (sends : Bool) (ms : List ExternalClient) (q : QuicCommunication)
      (s : Streams)
      → (send_outbound serialize mode opened sends ms (q, s)).0
        ≡ take_outbound (hands_over ms opened sends) ms q
  unfolding send_outbound take_outbound
  send_outbound-plain opened sends [] q s = refl
  send_outbound-plain opened sends (m ∷ ms) q s = refl

  send_outbound-Agree :
      (opened : Option ℕ) (sends : Bool) (ms : List ExternalClient) (q : QuicCommunication)
      (s : Streams)
      → Agree (q, s)
      → Agree (send_outbound serialize mode opened sends ms (q, s))
  unfolding send_outbound take_outbound
  send_outbound-Agree opened sends [] q s h = h
  send_outbound-Agree opened sends (m ∷ ms) q s h =
      let handed = is_handed_over (serialize m) opened sends in
      ap (map serialize) (handed_over-append q.taken ((m, handed) ∷ []))
      ∙ map-append serialize (handed_over q.taken) (handed_over ((m, handed) ∷ []))
      ∙ ap (λ l. l ++ map serialize (handed_over ((m, handed) ∷ []))) h
      ∙ ap (λ l. map some (bytes_sent s.calls) ++ l)
          (handed_over-bytes_of serialize m (serialize m) opened sends refl)
      ∙ sym (map-append some (bytes_sent s.calls) (bytes_of (serialize m) handed))
      ∙ ap (map some) (sym (send_via_quic_stream-bytes_sent mode (serialize m) opened sends s))

  sender_loop-plain :
      (opened : Option ℕ) (sends : Bool) (q : QuicCommunication) (s : Streams)
      → (sender_loop serialize mode opened sends (q, s)).0
        ≡ sender_round (hands_over q.outbound_queue opened sends) q
  unfolding sender_loop sender_round
  sender_loop-plain opened sends q s =
      ground (arith, send_outbound-plain opened sends q.outbound_queue q s)

  sender_loop-Agree :
      (opened : Option ℕ) (sends : Bool) (q : QuicCommunication) (s : Streams)
      → Agree (q, s)
      → Agree (sender_loop serialize mode opened sends (q, s))
  unfolding sender_loop
  sender_loop-Agree opened sends q s h =
      ground (arith, h, send_outbound-Agree opened sends q.outbound_queue q s h)

  step-plain :
      (t : QuicCommunication × Streams) (e : Event × Option ℕ)
      → (step t e).0 ≡ Queues.step parse t.0 (plain t.0 e)
  unfolding step Queues.step
  step-plain (q, s) (sender_event sends, opened) = sender_loop-plain opened sends q s
  step-plain (q, s) (initialize_call opens starts, opened) = refl
  step-plain (q, s) (send_call message, opened) = refl
  step-plain (q, s) (receive_call, opened) = refl
  step-plain (q, s) (cancel_call, opened) = refl
  step-plain (q, s) (connected_event, opened) = refl
  step-plain (q, s) (shutdown_complete_event, opened) = refl
  step-plain (q, s) (shutdown_by_peer_event, opened) = refl
  step-plain (q, s) (receive_event buffers, opened) = refl

  step-Agree : (t : QuicCommunication × Streams) (e : Event × Option ℕ) → Agree t → Agree (step t e)
  unfolding step Queues.step initialize_connection send_message receive_message cancel_receive
      on_connected on_shutdown_complete on_shutdown_by_peer on_receive on_message_decoded
  step-Agree (q, s) (sender_event sends, opened) h = sender_loop-Agree opened sends q s h
  step-Agree (q, s) (initialize_call opens starts, opened) h = ground (arith, h)
  step-Agree (q, s) (send_call message, opened) h = ground (arith, h)
  step-Agree (q, s) (receive_call, opened) h =
      ground (arith, h, pop_inbound-taken q.inbound_queue q)
  step-Agree (q, s) (cancel_call, opened) h = h
  step-Agree (q, s) (connected_event, opened) h = ground (arith, h)
  step-Agree (q, s) (shutdown_complete_event, opened) h = h
  step-Agree (q, s) (shutdown_by_peer_event, opened) h = h
  step-Agree (q, s) (receive_event [], opened) h = h
  step-Agree (q, s) (receive_event (b ∷ bs), opened) h =
      elim (Option-cases (parse (join (b ∷ bs)))) [
        | inl e ↦ ground (arith, e, h)
        | inr (m, e) ↦ ground (arith, e, h)
      ]

  -- From any state in which they agree, and in any order of calls, events and rounds of the sender: the
  -- queues and the connection do what they do without the streams, where a message counts as sent exactly
  -- if it serializes, StreamOpen makes a stream and StreamSend succeeds; and the bytes of the sends that
  -- MsQuic accepted are the serialized messages that were handed over, in the order of the queue.
  pub run-plain :
      (t : QuicCommunication × Streams) (es : List (Event × Option ℕ))
      → Agree t
      → ((run t es).0 ≡ Queues.run parse t.0 (plain_all t es)) × Agree (run t es)
  unfolding run Queues.run
  run-plain t [] h = (refl, h)
  run-plain t (e ∷ es) h =
      let (queues, agree) = run-plain (step t e) es (step-Agree t e h) in
      (queues ∙ ap (λ q. Queues.run parse q (plain_all (step t e) es)) (step-plain t e), agree)
