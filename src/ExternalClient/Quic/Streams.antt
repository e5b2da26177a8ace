-- ===== src/ExternalClient/Quic/Streams.antt =====
-- source/bringauto/external_client/connection/communication/QuicCommunication.cpp: the streams, the
-- calls into MsQuic for them, and the buffers that are handed to it. What MsQuic answers, the events
-- that it raises and what protobuf makes of a message are arguments; the ids of streams, which are
-- only logged, are left out. A serialized message is shorter than 2 ^ 31 bytes, so that the casts of
-- its size keep it.
pub mod Calls
pub mod Buffers
pub mod Sending
use module_gateway.Common.{
  ℕ, suc, Bool, true, false, List, [], ◌∷◌, ◌++◌, Option, none, some, if◌then◌else◌, ◌==◌,
}
use module_gateway.ExternalClient.Messages.{ExternalClient}
use module_gateway.ExternalClient.Quic.{StreamMode, QuicCommunication, is_connected, take_outbound}

-- A call into MsQuic, with its arguments and what it answers. A stream and the context of a send are
-- pointers, here numbers.
pub data Call : Type 0 where
  stream_open : StreamMode → Option ℕ → Call
  stream_send : ℕ → ℕ → List ℕ → Bool → Call
  stream_shutdown stream_close set_callback_handler stream_receive_set_enabled : ℕ → Call

pub record Streams : Type 0 where
  -- The address of the next SendBuffer.
  pub next : ℕ
  -- The buffers that are allocated and not freed, and those that were freed, as often as they were.
  pub live : List ℕ
  pub freed : List ℕ
  -- The calls so far.
  pub calls : List Call

abbrev pub no_streams : Streams
no_streams = record { next = 0; live = []; freed = []; calls = [] }

unfoldable pub call : Call → Streams → Streams
call c s = record s { calls = s.calls ++ c ∷ [] }

-- std::make_unique of a SendBuffer, which stands at `next`.
unfoldable pub allocate : Streams → Streams
allocate s = record s { next = suc s.next; live = s.live ++ s.next ∷ [] }

unfoldable pub erase : ℕ → List ℕ → List ℕ
erase b [] = []
erase b (c ∷ cs) = if c == b then cs else c ∷ erase b cs

-- The destructor of a std::unique_ptr to a SendBuffer.
unfoldable pub free : ℕ → Streams → Streams
free b s = record s { live = erase b s.live; freed = s.freed ++ b ∷ [] }

-- `sendViaQuicStream` from StreamSend on, with whether StreamSend succeeds: MsQuic has the buffer, or
-- it is reclaimed.
unfoldable pub stream_send_buffer : ℕ → ℕ → List ℕ → Bool → Streams → Streams
stream_send_buffer stream buffer bytes sends s =
    let sent = call (stream_send stream buffer bytes sends) s in
    if sends then sent else free buffer (call (stream_shutdown stream) sent)

-- `sendViaQuicStream` on an open stream, with the bytes of the message if it serializes.
unfoldable pub send_on_stream : ℕ → Option (List ℕ) → Bool → Streams → Streams
send_on_stream stream none sends s = free s.next (call (stream_shutdown stream) (allocate s))
send_on_stream stream (some bytes) sends s =
    stream_send_buffer stream s.next bytes sends (allocate s)

-- `sendViaQuicStream`, with the bytes of the message, the stream that StreamOpen makes, if any, and
-- whether StreamSend succeeds.
unfoldable pub send_via_quic_stream :
    StreamMode → Option (List ℕ) → Option ℕ → Bool → Streams → Streams
send_via_quic_stream mode bytes none sends s = call (stream_open mode none) s
send_via_quic_stream mode bytes (some stream) sends s =
    send_on_stream stream bytes sends (call (stream_open mode (some stream)) s)

-- QUIC_CONNECTION_EVENT_PEER_STREAM_STARTED
unfoldable pub on_peer_stream_started : ℕ → Streams → Streams
on_peer_stream_started stream s =
    call (stream_receive_set_enabled stream) (call (set_callback_handler stream) s)

-- QUIC_STREAM_EVENT_SEND_COMPLETE, with its ClientContext, for a send that was cancelled too.
unfoldable pub on_send_complete : ℕ → Streams → Streams
on_send_complete context s = free context s

-- QUIC_STREAM_EVENT_SHUTDOWN_COMPLETE
unfoldable pub on_stream_shutdown_complete : ℕ → Streams → Streams
on_stream_shutdown_complete stream s = call (stream_close stream) s

-- Whether `sendViaQuicStream` hands the message to MsQuic.
abbrev pub is_handed_over : Option (List ℕ) → Option ℕ → Bool → Bool
is_handed_over (some bytes) (some stream) sends = sends
is_handed_over _ _ _ = false

module _ (serialize : ExternalClient → Option (List ℕ)) (mode : StreamMode) where
  -- `senderLoop` at a message of its queue.
  unfoldable pub send_outbound :
      Option ℕ
      → Bool
      → List ExternalClient
      → QuicCommunication × Streams
      → QuicCommunication × Streams
  send_outbound opened sends [] t = t
  send_outbound opened sends (message ∷ messages) (q, s) = (
    take_outbound (is_handed_over (serialize message) opened sends) (message ∷ messages) q,
    send_via_quic_stream mode (serialize message) opened sends s,
  )

  -- A round of `senderLoop` with the streams, if it runs.
  unfoldable pub sender_loop :
      Option ℕ → Bool → QuicCommunication × Streams → QuicCommunication × Streams
  sender_loop opened sends (q, s) =
      if q.is_sending
      then (if is_connected q.state
          then send_outbound opened sends q.outbound_queue (q, s)
          else (record q { is_sending = false }, s))
      else (q, s)
