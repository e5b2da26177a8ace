-- ===== src/InternalServer/Connections.antt =====
-- The connected devices of the InternalServer. A `shared_ptr<Connection>` is a number, and the
-- connections that the pointers share stand in a function of it.
pub mod Registry
pub mod System
pub mod Invariant
pub mod Arbitration
use module_gateway.Common.{
  ℕ, Bool, true, false, not, ◌&&◌, List, [], ◌∷◌, ◌++◌, Option, none, some, ltb, ◌==◌,
  if◌then◌else◌,
}
use module_gateway.Structures.Device.{DeviceIdentification, same_device}
use module_gateway.Structures.Messages.{
  InternalClient, device_status, device_connect, nothing, InternalServer, device_command,
  connect_response, no_response, ResponseType, already_connected, higher_priority_already_connected,
  empty_device, InternalClientMessage, disconnect_message, client_message,
}

pub record Connection : Type 0 where
  pub device_id : Option DeviceIdentification
  pub ready : Bool
  pub socket_open : Bool
  -- Whether a write on the open socket succeeds.
  pub writable : Bool

pub record Server : Type 0 where
  pub connection : ℕ → Connection
  -- connectedDevices_
  pub connected : List ℕ
  -- fromInternalQueue_
  pub from_internal : List InternalClientMessage
  -- What has been written to the sockets.
  pub sent : List (ℕ × InternalServer)

-- Changes the connection that the pointer `i` shares.
unfoldable pub update : ℕ → (Connection → Connection) → Server → Server
update i f s = record s { connection = λ j. if i == j then f (s.connection j) else s.connection j }

abbrev pub push : InternalClientMessage → Server → Server
push m s = record s { from_internal = s.from_internal ++ m ∷ [] }

-- isSame, against the device of a connection. Each connected one has a device (`Invariant`).
unfoldable pub is_same : DeviceIdentification → Connection → Bool
is_same d c = elim c.device_id [ none ↦ false | some e ↦ same_device d e ]

abbrev pub priority_of : Connection → ℕ
priority_of c = elim c.device_id [ none ↦ 0 | some e ↦ e.priority ]

-- std::find_if over connectedDevices_
unfoldable pub find_in : (ℕ → Connection) → DeviceIdentification → List ℕ → Option ℕ
find_in cs d [] = none
find_in cs d (i ∷ is) = if is_same d (cs i) then some i else find_in cs d is

-- erase of what std::find_if finds
unfoldable pub erase_in : (ℕ → Connection) → DeviceIdentification → List ℕ → List ℕ
erase_in cs d [] = []
erase_in cs d (i ∷ is) = if is_same d (cs i) then is else i ∷ erase_in cs d is

unfoldable pub find_connection : Server → DeviceIdentification → Option ℕ
find_connection s d = find_in s.connection d s.connected

abbrev pub close_socket : Connection → Connection
close_socket c = record c { socket_open = false }

-- The end of `removeConnFromMap`, where the connection has the device `d`.
unfoldable pub remove_device_of : Server → DeviceIdentification → Server
remove_device_of s d = elim (find_connection s d) [
  | none ↦ s
  | some j ↦
      if priority_of (s.connection j) == d.priority
      then push (disconnect_message d)
          (record s { connected = erase_in s.connection d s.connected })
      else s
]

unfoldable pub remove_conn_from_map : Server → ℕ → Server
remove_conn_from_map s i =
    let closed = update i close_socket s in
    elim (s.connection i).device_id [ none ↦ closed | some d ↦ remove_device_of closed d ]

unfoldable pub send_response : Server → ℕ → InternalServer → Server × Bool
send_response s i m =
    if (s.connection i).socket_open && (s.connection i).writable
    then (record s { sent = s.sent ++ (i, m) ∷ [] }, true)
    else (s, false)

unfoldable pub connect_new_device : Server → ℕ → DeviceIdentification → Server
connect_new_device s i d =
    let named = update i (λ c. record c { device_id = some d }) s in
    push (client_message false (device_connect d))
      (record named { connected = named.connected ++ i ∷ [] })

unfoldable pub respond : ResponseType → Server → ℕ → DeviceIdentification → Server
respond t s i d = (send_response s i (connect_response d t)).0

unfoldable pub change_connection : Server → ℕ → DeviceIdentification → Server
change_connection s i d = elim (find_connection s d) [
  | none ↦ connect_new_device s i d
  | some old ↦ connect_new_device (remove_conn_from_map s old) i d
]

unfoldable pub handle_connection : Server → ℕ → DeviceIdentification → Server × Bool
handle_connection s i d =
    if (s.connection i).ready then (s, false) else elim (find_connection s d) [
      | none ↦ (connect_new_device s i d, true)
      | some j ↦
          let existing = priority_of (s.connection j) in
          if d.priority == existing
          then (respond already_connected s i d, false)
          else if ltb existing d.priority
          then (respond higher_priority_already_connected s i d, false)
          else (change_connection s i d, true)
    ]

unfoldable pub handle_status : Server → ℕ → InternalClient → Server × Bool
handle_status s i m =
    if (s.connection i).ready
    then (update i (λ c. record c { ready = false }) (push (client_message false m) s), true)
    else (s, false)

-- `handleMessage` up to its wait: `parse` is protobuf's ParseFromArray.
unfoldable pub begin_message :
    (List ℕ → Option InternalClient) → Server → ℕ → List ℕ → Server × Bool
begin_message parse s i bytes = elim (parse bytes) [
  | none ↦ (s, false)
  | some (device_status m) ↦ handle_status s i (device_status m)
  | some (device_connect d) ↦ handle_connection s i d
  | some nothing ↦ (s, false)
]

-- What `handleMessage` returns after its wait.
abbrev pub end_message : Bool → Server → ℕ → Bool
end_message stopped s i = (s.connection i).ready && not stopped

unfoldable pub handle_disconnect : Server → DeviceIdentification → Server
handle_disconnect s d = elim (find_connection s d) [ none ↦ s | some i ↦ remove_conn_from_map s i ]

abbrev pub response_device : InternalServer → DeviceIdentification
response_device (device_command c) = c.device
response_device (connect_response d t) = d
response_device no_response = empty_device

unfoldable pub validate_response : Server → InternalServer → Server
validate_response s m =
    let d = response_device m in
    elim (find_connection s d) [
      | none ↦ s
      | some i ↦
          if priority_of (s.connection i) == d.priority
          then update i (λ c. record c { ready = true }) (send_response s i m).0
          else s
    ]
