-- ===== src/Tests/Quic.antt =====
-- The theorems on the QUIC channel, applied to a run over two connections.
use module_gateway.Common.{
  ℕ, true, false, List, [], ◌∷◌, ◌++◌, Option, none, some, ◌≡◌, refl, arith,
}
use module_gateway.ExternalClient.Messages.{ExternalClient, ExternalServer, connect, nothing_set}
use module_gateway.ExternalClient.Quic.{QuicCommunication, bidirectional, init}
use module_gateway.ExternalClient.Quic.Streams.{
  Streams, no_streams, send_via_quic_stream, send_on_stream, stream_send_buffer, call, allocate,
  free, erase, on_send_complete, on_stream_shutdown_complete, on_peer_stream_started,
}
use module_gateway.ExternalClient.Quic.Streams.Buffers
use module_gateway.ExternalClient.Quic.Streams.Buffers.{
  at_start, send, send_complete, shutdown_complete, peer_stream_started, Documented, Owned,
  run-at_start-Owned,
}
use module_gateway.ExternalClient.Quic.Streams.Sending
use module_gateway.ExternalClient.Quic.Streams.Sending.{Agree, plain_all, run-plain}
use module_gateway.ExternalClient.Quic.Queues
use module_gateway.ExternalClient.Quic.Handles.{
  Handles, construct, initialize, stop, open_connections, connection_open, begin_shutdown_complete,
  end_shutdown_complete, load_ms_quic, init_registration, init_configuration,
  configuration_open_call, open_connection, start_connection, on_connected_event, on_peer_shutdown,
}
use module_gateway.ExternalClient.Quic.Handles
use module_gateway.ExternalClient.Quic.Handles.Lone
use module_gateway.ExternalClient.Quic.Handles.Lone.{Lone}
use module_gateway.ExternalClient.Quic.Handles.Ending.{
  shutdown_of, run-construct-stop, end_shutdown_complete-loses,
}
use module_gateway.ExternalClient.Connection.{connected, connecting}
use module_gateway.ExternalClient.Quic.Queues.{
  Event, initialize_call, send_call, receive_call, connected_event, shutdown_complete_event,
  receive_event, sender_event, run, outgoing, incoming, accepted, decoded, run-queues,
}

-- A parser that refuses a message of no bytes.
abbrev refuse_empty : List ℕ → Option ExternalServer
refuse_empty [] = none
refuse_empty (_ ∷ _) = some nothing_set

-- What is queued in the first connection is sent in the second.
abbrev two_connections : List Event
two_connections =
    initialize_call true true
    ∷ connected_event
    ∷ send_call (connect "one" "company" "car" [])
    ∷ shutdown_complete_event
    ∷ send_call (connect "refused" "company" "car" [])
    ∷ initialize_call true true
    ∷ connected_event
    ∷ send_call (connect "two" "company" "car" [])
    ∷ sender_event true
    ∷ receive_event ((1 ∷ []) ∷ (2 ∷ []) ∷ [])
    ∷ receive_event ([] ∷ [])
    ∷ receive_call
    ∷ []

run-queues_example :
    (outgoing (run refuse_empty init two_connections)
      ≡ outgoing init ++ accepted refuse_empty init two_connections)
    × (incoming (run refuse_empty init two_connections)
        ≡ incoming init ++ decoded refuse_empty two_connections)
run-queues_example = run-queues refuse_empty init two_connections

-- The first message goes out, StreamSend refuses the second, and no stream opens for the third.
abbrev one_goes_out : List (Event × Option ℕ)
one_goes_out =
    (initialize_call true true, none)
    ∷ (connected_event, none)
    ∷ (send_call (connect "one" "company" "car" []), none)
    ∷ (send_call (connect "two" "company" "car" []), none)
    ∷ (send_call (connect "three" "company" "car" []), none)
    ∷ (sender_event true, some 0)
    ∷ (sender_event false, some 4)
    ∷ (sender_event true, none)
    ∷ []

abbrev two_bytes : ExternalClient → Option (List ℕ)
two_bytes message = some (1 ∷ 2 ∷ [])

run-plain_example :
    let t : QuicCommunication × Streams = (init, no_streams) in
    let after = Sending.run refuse_empty two_bytes bidirectional t one_goes_out in
    (after.0
      ≡ Queues.run refuse_empty init
          (plain_all refuse_empty two_bytes bidirectional t one_goes_out))
    × Agree refuse_empty two_bytes bidirectional after
run-plain_example =
    run-plain refuse_empty two_bytes bidirectional (init, no_streams) one_goes_out refl

-- A send that completes, one that StreamSend refuses, one that does not serialize, one for which no
-- stream opens, and a stream of the peer.
abbrev four_sends : List Buffers.Event
four_sends =
    send bidirectional (some (1 ∷ [])) (some 0) true
    ∷ send bidirectional (some (2 ∷ [])) (some 4) false
    ∷ peer_stream_started 1
    ∷ send_complete 0
    ∷ send bidirectional none (some 8) true
    ∷ shutdown_complete 0
    ∷ send bidirectional (some (3 ∷ [])) none true
    ∷ send bidirectional (some (4 ∷ [])) (some 0) true
    ∷ shutdown_complete 1
    ∷ shutdown_complete 0
    ∷ []

four_sends-Documented : Documented at_start four_sends
unfolding Buffers.step send_via_quic_stream send_on_stream stream_send_buffer call allocate free
    on_send_complete on_stream_shutdown_complete on_peer_stream_started erase
four_sends-Documented = omega arith

run-at_start-Owned_example : Owned 0 (Buffers.run at_start four_sends)
run-at_start-Owned_example = run-at_start-Owned four_sends four_sends-Documented 0

-- Two connections, the second of which ends only by `stop`; the first attempt fails.
abbrev two_lives : List Lone.Event
two_lives =
    Lone.initialize_call (some 3) false
    ∷ Lone.initialize_call (some 1) true
    ∷ Lone.connected_event
    ∷ Lone.initialize_call (some 9) true
    ∷ Lone.peer_shutdown_event
    ∷ Lone.shutdown_complete_event 1
    ∷ Lone.initialize_call (some 2) true
    ∷ Lone.connected_event
    ∷ []

two_lives-Documented : Lone.Documented two_lives (construct true true true true)
unfolding Lone.step construct load_ms_quic init_registration init_configuration
    configuration_open_call open_connection start_connection initialize on_connected_event
    on_peer_shutdown begin_shutdown_complete end_shutdown_complete Handles.call
two_lives-Documented = (tt, (tt, (tt, (tt, (refl, (refl, (tt, (tt, tt))))))))

run-construct-stop_example :
    (h : Handles) × (Lone.run two_lives (construct true true true true) ≡ some h)
    × Lone h
    × (let stopped = stop (shutdown_of h.connection) h in
        (open_connections stopped.calls ≡ [])
        × (stopped.connection ≡ none)
        × (stopped.config ≡ false)
        × (stopped.registration ≡ false)
        × (stopped.quic ≡ false))
run-construct-stop_example = run-construct-stop true true true two_lives two_lives-Documented

-- A channel that is connected by its connection 1.
abbrev connected_handles : Handles
connected_handles = record {
  quic = true;
  registration = true;
  config = true;
  connection = some 1;
  state = connected;
  calls = connection_open (some 1) ∷ [];
}

end_shutdown_complete-loses_example :
    (after : Handles) × (initialize (some 2) true (begin_shutdown_complete connected_handles)
      ≡ some after)
    × (let left = end_shutdown_complete 1 after in
        (left.state ≡ connecting)
        × (left.connection ≡ none)
        × (open_connections left.calls ≡ 2 ∷ [])
        × (open_connections (stop (λ k. k) left).calls ≡ 2 ∷ []))
end_shutdown_complete-loses_example =
    end_shutdown_complete-loses connected_handles 1 2 (refl, refl, refl) refl (omega arith)
