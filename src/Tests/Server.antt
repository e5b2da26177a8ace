-- ===== src/Tests/Server.antt =====
-- The theorems on the internal server, applied to a few receives and events. The handler of
-- messages keeps each one and refuses none; a message of one byte connects a device, any other is a
-- status.
use module_gateway.Common.{
  ℕ, ◌≤◌, ◌<◌, Bool, true, false, List, [], ◌∷◌, ◌++◌, Option, none, some, ◌==◌, if◌then◌else◌, ◌≡◌,
  ◌≢◌, ◌⊎◌, inl, refl, arith,
}
use module_gateway.Structures.Device.{DeviceIdentification, same_device}
use module_gateway.Structures.Messages.{
  InternalClient, device_connect, device_status, nothing, InternalServer, connect_response,
  response_ok, client_message, disconnect_message,
}
use module_gateway.InternalServer.Framing.{
  no_message, process_buffer_data, finish_message, read_header, read_size, size_sub,
}
use module_gateway.InternalServer.Framing.Stream.{feed}
use module_gateway.InternalServer.Framing.Refines.{received, process-feed}
use module_gateway.InternalServer.Framing.Total.{
  process_buffer_data-total, process_buffer_data-cut_header,
}
use module_gateway.InternalServer.Framing.Frames.{
  encode, handle_all, outcome, receive_all, receive_all-stream,
}
use module_gateway.InternalServer.Connections.{
  Connection, Server, find_connection, priority_of, handle_connection, remove_conn_from_map,
  is_same, find_in,
}
use module_gateway.InternalServer.Connections.System.{
  Event, accepts, receives, finishes, fails, responds, disconnects, init, run, new_connection,
}
use module_gateway.InternalServer.Connections.Invariant.{Sound}
use module_gateway.InternalServer.Connections.Invariant.Reachable.{run-init-Sound}
use module_gateway.InternalServer.Connections.Arbitration.{
  handle_connection-accepted, handle_connection-refused, remove_conn-replaced,
}
use module_gateway.Tests.{button, main_button}

abbrev keep : List (List ℕ) → List ℕ → List (List ℕ) × Bool
keep ms m = (ms ++ m ∷ [], true)

-- A message of two bytes with its header, and the first bytes of another.
abbrev frame : List ℕ
frame = 2 ∷ 0 ∷ 0 ∷ 0 ∷ 8 ∷ 9 ∷ []

process-feed_example :
    process_buffer_data keep 7 [] no_message frame 6 0
    ≡ feed keep 7 [] no_message (received frame 6 0)
process-feed_example =
    process-feed keep 7 [] no_message frame 6 0 (inl (refl, refl)) (omega arith) (omega arith)

process_buffer_data-total_example : process_buffer_data keep 7 [] no_message frame 6 0 ≢ none
process_buffer_data-total_example =
    process_buffer_data-total keep 7 [] no_message frame 6 0 (inl (refl, refl)) (omega arith)
      (omega arith) (omega arith)

process_buffer_data-cut_header_example :
    outcome keep (process_buffer_data keep 9 [] no_message (frame ++ 2 ∷ 0 ∷ []) 8 0)
    ≡ some ((handle_all keep [] ((8 ∷ 9 ∷ []) ∷ [])).0, false)
unfolding encode
process_buffer_data-cut_header_example =
    process_buffer_data-cut_header keep 9 [] (frame ++ 2 ∷ 0 ∷ []) 8 ((8 ∷ 9 ∷ []) ∷ [])
      (2 ∷ 0 ∷ []) (omega arith) (omega arith) (omega arith) refl (omega arith, tt) (omega arith)
      (omega arith)

receive_all-stream_example : handle_all keep [] ((8 ∷ 9 ∷ []) ∷ []) ≡ ((8 ∷ 9 ∷ []) ∷ [], true)
unfolding encode receive_all process_buffer_data finish_message read_header read_size size_sub
receive_all-stream_example =
    receive_all-stream keep frame 5 ((9 ∷ [], 1) ∷ []) (8 ∷ 9 ∷ []) [] [] ((8 ∷ 9 ∷ []) ∷ [])
      no_message
      ((omega arith, omega arith, omega arith), ((omega arith, omega arith, omega arith), tt))
      (omega arith, tt) refl refl

abbrev parse : List ℕ → Option InternalClient
parse [] = some nothing
parse (b ∷ []) = some (device_connect button)
parse (b ∷ c ∷ []) = some (device_connect main_button)
parse (b ∷ c ∷ d ∷ bs) = some (device_status (record { device = button; status_data = bs }))

abbrev events : List Event
events =
    accepts 0
    ∷ receives 0 (1 ∷ [])
    ∷ accepts 1
    ∷ responds (connect_response button response_ok)
    ∷ finishes 0 false
    ∷ receives 1 (1 ∷ 2 ∷ [])
    ∷ fails 0
    ∷ disconnects main_button
    ∷ finishes 1 false
    ∷ []

run-init-Sound_example : Sound (run parse init events)
run-init-Sound_example = run-init-Sound parse events

abbrev connection_of : DeviceIdentification → Connection
connection_of d = record { device_id = some d; ready = true; socket_open = true; writable = true }

-- Connection 0 has the button and is connected, 2 had it before, and 1 is new.
abbrev one_connected : Server
one_connected = record {
  connection = λ i.
      if i == 0
      then connection_of button
      else if i == 2
      then connection_of button
      else new_connection;
  connected = 0 ∷ [];
  from_internal = [];
  sent = [];
}

handle_connection-accepted_example :
    let r = (handle_connection one_connected 1 main_button).0 in
    let connect = client_message false (device_connect main_button) in
    (find_connection r main_button ≡ some 1)
    × (((find_connection one_connected main_button ≡ none) × (r.from_internal ≡ [] ++ connect ∷ []))
        ⊎ ((j : ℕ) × (e : DeviceIdentification) × (find_connection one_connected main_button
              ≡ some j)
            × ((one_connected.connection j).device_id ≡ some e)
            × (main_button.priority < e.priority)
            × (r.from_internal ≡ ([] ++ disconnect_message e ∷ []) ++ connect ∷ [])))
handle_connection-accepted_example =
    handle_connection-accepted one_connected 1 main_button (tt, tt)
      (unfold handle_connection find_connection find_in is_same same_device in refl)

abbrev main_connected : Server
main_connected = record one_connected {
  connection = λ i. if i == 0 then connection_of main_button else new_connection;
}

handle_connection-refused_example :
    let r = (handle_connection main_connected 1 button).0 in
    (r.connected ≡ 0 ∷ [])
    × (r.from_internal ≡ [])
    × (((main_connected.connection 1).ready ≡ true)
        ⊎ ((j : ℕ) × (find_connection main_connected button ≡ some j)
            × (priority_of (main_connected.connection j) ≤ button.priority)))
handle_connection-refused_example =
    handle_connection-refused main_connected 1 button
      (unfold handle_connection find_connection find_in is_same same_device in refl)

abbrev answer : InternalServer
answer = connect_response button response_ok

remove_conn-replaced_example :
    let r = remove_conn_from_map one_connected 2 in
    (find_connection r button ≡ none)
    × (r.connection 0 ≡ one_connected.connection 0)
    × (r.from_internal ≡ [] ++ disconnect_message button ∷ [])
remove_conn-replaced_example =
    remove_conn-replaced one_connected 2 0 button (tt, tt) refl
      (unfold find_connection find_in is_same same_device in refl) refl refl
