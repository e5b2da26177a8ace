-- ===== src/InternalServer/Connections/System.antt =====
-- The server as a state machine: what its handlers and the queue's thread do, one event at a time.
-- A handler of a connection is between two messages (`idle`), waits for the module handler's
-- answer (`waiting`), or has ended (`gone`).
use module_gateway.Common.{ℕ, Bool, true, false, List, [], ◌∷◌, Option, none, ◌==◌, if◌then◌else◌}
use module_gateway.Structures.Device.{DeviceIdentification}
use module_gateway.Structures.Messages.{InternalClient, InternalServer}
use module_gateway.InternalServer.Connections.{
  Connection, Server, update, remove_conn_from_map, begin_message, end_message, handle_disconnect,
  validate_response,
}

pub data Phase : Type 0 where
  absent idle waiting gone : Phase

pub record System : Type 0 where
  pub server : Server
  pub phase : ℕ → Phase

pub data Event : Type 0 where
  -- A connection is accepted.
  accepts : ℕ → Event
  -- A complete message arrives.
  receives : ℕ → List ℕ → Event
  -- The wait of `handleMessage` ends; the flag says whether the io context is stopped.
  finishes : ℕ → Bool → Event
  -- A receive fails, or its data is refused.
  fails : ℕ → Event
  -- The queue's thread takes a response, or the order to disconnect a device.
  responds : InternalServer → Event
  disconnects : DeviceIdentification → Event
  -- The peer's side of a socket changes.
  peer_changes : ℕ → Bool → Event

abbrev pub set_phase : ℕ → Phase → (ℕ → Phase) → ℕ → Phase
set_phase i p ph j = if i == j then p else ph j

abbrev pub new_connection : Connection
new_connection = record { device_id = none; ready = false; socket_open = true; writable = true }

abbrev pub init : System
init = record {
  server = record {
    connection = λ i. new_connection;
    connected = [];
    from_internal = [];
    sent = [];
  };
  phase = λ i. absent;
}

-- `asyncReceiveHandler` removes the connection and starts no other receive.
unfoldable pub drop : ℕ → Server → (ℕ → Phase) → System
drop i s ph = record { server = remove_conn_from_map s i; phase = set_phase i gone ph }

unfoldable pub continue_if : Bool → ℕ → Phase → Server → (ℕ → Phase) → System
unfolding drop
continue_if true i p s ph = record { server = s; phase = set_phase i p ph }
continue_if false i p s ph = drop i s ph

module _ (parse : List ℕ → Option InternalClient) where
  unfoldable pub accept_in : Phase → ℕ → System → System
  accept_in absent i y = record {
    server = update i (λ c. new_connection) y.server;
    phase = set_phase i idle y.phase;
  }
  accept_in p i y = y

  unfoldable pub receive_in : Phase → ℕ → List ℕ → System → System
  unfolding continue_if
  receive_in idle i bytes y =
      let (s, accepted) = begin_message parse y.server i bytes in
      continue_if accepted i waiting s y.phase
  receive_in p i bytes y = y

  unfoldable pub finish_in : Phase → ℕ → Bool → System → System
  unfolding continue_if
  finish_in waiting i stopped y =
      continue_if (end_message stopped y.server i) i idle y.server y.phase
  finish_in p i stopped y = y

  unfoldable pub fail_in : Phase → ℕ → System → System
  unfolding drop
  fail_in idle i y = drop i y.server y.phase
  fail_in p i y = y

  unfoldable pub step : System → Event → System
  unfolding accept_in receive_in finish_in fail_in
  step y (accepts i) = accept_in (y.phase i) i y
  step y (receives i bytes) = receive_in (y.phase i) i bytes y
  step y (finishes i stopped) = finish_in (y.phase i) i stopped y
  step y (fails i) = fail_in (y.phase i) i y
  step y (responds m) = record y { server = validate_response y.server m }
  step y (disconnects d) = record y { server = handle_disconnect y.server d }
  step y (peer_changes i w) = record y {
    server = update i (λ c. record c { writable = w }) y.server;
  }

  unfoldable pub run : System → List Event → System
  run y [] = y
  run y (v ∷ vs) = run (step y v) vs
