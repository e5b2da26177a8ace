-- ===== src/ExternalClient/Quic/Streams/Buffers.antt =====
-- Who frees a SendBuffer, and who closes a stream, in any order of sends and events of MsQuic.
use module_gateway.Common.{
  ℕ, ◌+◌, ◌≤◌, ◌<◌, Bool, true, false, List, [], ◌∷◌, ◌++◌, Option, none, some, if◌then◌else◌, ltb,
  ◌≡◌, arith,
}
use module_gateway.ExternalClient.Quic.{StreamMode}
use module_gateway.ExternalClient.Quic.Streams.Calls.{
  of_each, sent_by, opened_by, closed_by, count, count-call, count-free, count-allocate,
  count-reclaim,
}
use module_gateway.ExternalClient.Quic.Streams.{
  Call, stream_open, stream_send, stream_shutdown, stream_close, set_callback_handler,
  stream_receive_set_enabled, Streams, no_streams, call, allocate, free, stream_send_buffer,
  send_on_stream, send_via_quic_stream, on_peer_stream_started, on_send_complete,
  on_stream_shutdown_complete,
}

pub data Event : Type 0 where
  send : StreamMode → Option (List ℕ) → Option ℕ → Bool → Event
  peer_stream_started send_complete shutdown_complete : ℕ → Event

pub record World : Type 0 where
  pub streams : Streams
  -- The contexts of the SEND_COMPLETE events, and the streams of the SHUTDOWN_COMPLETE events.
  pub completed : List ℕ
  pub ended : List ℕ

abbrev pub at_start : World
at_start = record { streams = no_streams; completed = []; ended = [] }

unfoldable pub step : World → Event → World
step w (send mode bytes stream sends) = record w {
  streams = send_via_quic_stream mode bytes stream sends w.streams;
}
step w (peer_stream_started stream) = record w { streams = on_peer_stream_started stream w.streams }
step w (send_complete context) = record w {
  streams = on_send_complete context w.streams;
  completed = context ∷ w.completed;
}
step w (shutdown_complete stream) = record w {
  streams = on_stream_shutdown_complete stream w.streams;
  ended = stream ∷ w.ended;
}

unfoldable pub run : World → List Event → World
run w [] = w
run w (e ∷ es) = run (step w e) es

-- MsQuic completes each send that it accepted at most once, and ends each stream at most once.
abbrev pub IsRaised : World → Event → Type 0
IsRaised w (send_complete context) =
    count context w.completed < count context (of_each sent_by w.streams.calls)
IsRaised w (shutdown_complete stream) =
    count stream w.ended < count stream (of_each opened_by w.streams.calls)
IsRaised w _ = Unit {0}

abbrev pub Documented : World → List Event → Type 0
Documented w [] = Unit {0}
Documented w (e ∷ es) = IsRaised w e × Documented (step w e) es

-- For the buffer, and for the stream, at `n`: a buffer that was allocated is live or was freed once; it
-- is live while MsQuic has it; a stream is closed as often as it ended, and no more than it was opened.
abbrev pub Owned : ℕ → World → Type 0
Owned n w =
    (count n w.streams.freed + count n w.streams.live ≡ (if ltb n w.streams.next then 1 else 0))
    × (count n w.streams.live + count n w.completed ≡ count n (of_each sent_by w.streams.calls))
    × (count n (of_each closed_by w.streams.calls) ≡ count n w.ended)
    × (count n w.ended ≤ count n (of_each opened_by w.streams.calls))

tally :
    (n : ℕ) (c : Call) (s : Streams)
    → (count n (of_each sent_by (call c s).calls)
        ≡ count n (of_each sent_by s.calls) + count n (sent_by c ++ []))
      × (count n (of_each opened_by (call c s).calls)
          ≡ count n (of_each opened_by s.calls) + count n (opened_by c ++ []))
      × (count n (of_each closed_by (call c s).calls)
          ≡ count n (of_each closed_by s.calls) + count n (closed_by c ++ []))
tally n c s = (count-call n sent_by c s, count-call n opened_by c s, count-call n closed_by c s)

send-Owned :
    (n : ℕ) (mode : StreamMode) (bytes : Option (List ℕ)) (stream : Option ℕ) (sends : Bool)
    (w : World)
    → Owned n w
    → Owned n (step w (send mode bytes stream sends))
unfolding step send_via_quic_stream send_on_stream stream_send_buffer call allocate free
send-Owned n mode bytes none sends w h =
    ground (arith, h, tally n (stream_open mode none) w.streams)
send-Owned n mode none (some stream) sends w h =
    let s = call (stream_open mode (some stream)) w.streams in
    ground (
      arith,
      h,
      tally n (stream_open mode (some stream)) w.streams,
      tally n (stream_shutdown stream) (allocate s),
      count-reclaim n s,
    )
send-Owned n mode (some bytes) (some stream) true w h =
    let s = call (stream_open mode (some stream)) w.streams in
    ground (
      arith,
      h,
      tally n (stream_open mode (some stream)) w.streams,
      tally n (stream_send stream s.next bytes true) (allocate s),
      count-allocate n s,
    )
send-Owned n mode (some bytes) (some stream) false w h =
    let s = call (stream_open mode (some stream)) w.streams in
    let sent = call (stream_send stream s.next bytes false) (allocate s) in
    ground (
      arith,
      h,
      tally n (stream_open mode (some stream)) w.streams,
      tally n (stream_send stream s.next bytes false) (allocate s),
      tally n (stream_shutdown stream) sent,
      count-reclaim n s,
    )

-- Completing a send frees a buffer that is live.
complete-Owned :
    (n context : ℕ) (w : World)
    → IsRaised w (send_complete context)
    → Owned context w
    → Owned n w
    → Owned n (step w (send_complete context))
unfolding step on_send_complete free
complete-Owned n context w raised own h =
    let live : 0 < count context w.streams.live = ground (arith, raised, own) in
    ground (arith, h, count-free n context w.streams live)

step-Owned :
    (w : World) (e : Event) → IsRaised w e → ((n : ℕ) → Owned n w) → (n : ℕ) → Owned n (step w e)
unfolding step on_peer_stream_started on_stream_shutdown_complete call
step-Owned w (send mode bytes stream sends) raised h n =
    send-Owned n mode bytes stream sends w (h n)
step-Owned w (peer_stream_started stream) raised h n =
    let s = call (set_callback_handler stream) w.streams in
    ground (
      arith,
      h n,
      tally n (set_callback_handler stream) w.streams,
      tally n (stream_receive_set_enabled stream) s,
    )
step-Owned w (send_complete context) raised h n =
    complete-Owned n context w raised (h context) (h n)
step-Owned w (shutdown_complete stream) raised h n =
    ground (arith, h n, raised, tally n (stream_close stream) w.streams)

run-Owned :
    (w : World) (es : List Event)
    → Documented w es
    → ((n : ℕ) → Owned n w)
    → (n : ℕ) → Owned n (run w es)
unfolding run
run-Owned w [] d h n = h n
run-Owned w (e ∷ es) d h n = run-Owned (step w e) es d.1 (step-Owned w e d.0 h) n

-- If MsQuic completes each send that it accepted, and ends each stream, at most once: after any order
-- of sends, with any failures, and events, each SendBuffer that was allocated is live or was freed,
-- exactly once; the live ones are those of the accepted sends that are not completed; and each stream
-- was closed exactly as often as it ended, which is no more than it was opened.
pub run-at_start-Owned :
    (es : List Event) → Documented at_start es → (n : ℕ) → Owned n (run at_start es)
run-at_start-Owned es d n = run-Owned at_start es d (λ k. ground arith) n
