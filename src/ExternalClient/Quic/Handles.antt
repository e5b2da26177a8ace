-- ===== src/ExternalClient/Quic/Handles.antt =====
-- source/bringauto/external_client/connection/communication/QuicCommunication.cpp: the handles of
-- MsQuic, from the constructor to stop. What MsQuic answers and the events that it raises are arguments;
-- the contents of the configuration and the credential are left out.
pub mod Lone
pub mod Ending
use module_gateway.Common.{
  ℕ, Bool, true, false, List, [], ◌∷◌, Option, none, some, if◌then◌else◌, ◌&&◌,
}
use module_gateway.ExternalClient.Connection.{
  ConnectionState, not_connected, connecting, connected, closing,
}
use module_gateway.ExternalClient.Quic.{is_not_connected, is_connecting}
use module_gateway.ExternalClient.Quic.Streams.{erase}

-- A call into MsQuic, with what it answers: the handle, or whether it succeeded.
pub data Call : Type 0 where
  ms_quic_open registration_open configuration_open : Bool → Call
  configuration_load_credential connection_start : Bool → Call
  connection_open : Option ℕ → Call
  connection_shutdown connection_close : ℕ → Call
  configuration_close registration_close ms_quic_close : Call

-- The members that are handles: whether each is set, and which connection. The calls so far, the newest
-- first.
pub record Handles : Type 0 where
  pub quic : Bool
  pub registration : Bool
  pub config : Bool
  pub connection : Option ℕ
  pub state : ConnectionState
  pub calls : List Call

abbrev pub no_handles : Handles
no_handles = record {
  quic = false;
  registration = false;
  config = false;
  connection = none;
  state = not_connected;
  calls = [];
}

unfoldable pub call : Call → Handles → Handles
call c h = record h { calls = c ∷ h.calls }

unfoldable pub load_ms_quic : Bool → Handles → Handles
load_ms_quic opens h = record (call (ms_quic_open opens) h) { quic = opens }

unfoldable pub init_registration : Bool → Handles → Handles
init_registration opens h = record (call (registration_open opens) h) { registration = opens }

unfoldable pub configuration_open_call : Bool → Handles → Handles
configuration_open_call opens h = record (call (configuration_open opens) h) { config = opens }

-- `initConfiguration`: the credential is loaded whether or not there is a configuration.
unfoldable pub init_configuration : Bool → Bool → Handles → Handles
init_configuration opens loads h =
    call (configuration_load_credential loads) (configuration_open_call opens h)

-- The constructor, with whether the library, the registration and the configuration open, and the
-- credential loads.
unfoldable pub construct : Bool → Bool → Bool → Bool → Handles
construct library registers configures loads =
    let loaded = load_ms_quic library no_handles in
    let registered = if loaded.quic then init_registration registers loaded else loaded in
    if registered.quic && registered.registration
    then init_configuration configures loads registered
    else registered

-- `initializeConnection` after ConnectionOpen.
unfoldable pub start_connection : ℕ → Bool → Handles → Handles
start_connection c starts h =
    let tried = call (connection_start starts) h in
    if starts
    then record tried { connection = some c }
    else record (call (connection_close c) tried) { connection = none; state = not_connected }

unfoldable pub open_connection : Option ℕ → Bool → Handles → Handles
open_connection none starts h = record (call (connection_open none) h) { state = not_connected }
open_connection (some c) starts h = start_connection c starts (call (connection_open (some c)) h)

-- `initializeConnection`, with the connection that ConnectionOpen makes, if any, and whether
-- ConnectionStart succeeds. There is none of it where `quic_`, which it dereferences, is null.
unfoldable pub initialize : Option ℕ → Bool → Handles → Option Handles
initialize opened starts h =
    if is_not_connected h.state
    then (if h.quic
        then some (open_connection opened starts (record h { state = connecting }))
        else none)
    else some h

-- `closeConnection`
unfoldable pub close_connection : Handles → Handles
close_connection h = elim h.connection [ none ↦ h | some c ↦ call (connection_shutdown c) h ]

unfoldable pub close_configuration : Handles → Handles
close_configuration h = record (if h.config then call configuration_close h else h) {
  config = false;
}

unfoldable pub close_registration : Handles → Handles
close_registration h = record (if h.registration then call registration_close h else h) {
  registration = false;
}

unfoldable pub close_ms_quic : Handles → Handles
close_ms_quic h = record (if h.quic then call ms_quic_close h else h) { quic = false }

-- QUIC_CONNECTION_EVENT_CONNECTED
unfoldable pub on_connected_event : Handles → Handles
on_connected_event h = if is_connecting h.state then record h { state = connected } else h

-- QUIC_CONNECTION_EVENT_SHUTDOWN_INITIATED_BY_PEER
unfoldable pub on_peer_shutdown : Handles → Handles
on_peer_shutdown h = record h { state = closing }

-- QUIC_CONNECTION_EVENT_SHUTDOWN_COMPLETE, up to where it has stored the state: another thread may
-- run here.
unfoldable pub begin_shutdown_complete : Handles → Handles
begin_shutdown_complete h = record h { state = not_connected }

-- The rest of it, for the connection of the event.
unfoldable pub end_shutdown_complete : ℕ → Handles → Handles
end_shutdown_complete c h = record (if h.quic then call (connection_close c) h else h) {
  connection = none;
}

-- `stop`. MsQuic keeps RegistrationClose waiting for the connections to end: `event` is what it raises
-- meanwhile.
unfoldable pub stop : (Handles → Handles) → Handles → Handles
stop event h = close_ms_quic (close_registration (event (close_configuration (close_connection h))))

-- The connections that were opened and not closed.
abbrev pub open_connections : List Call → List ℕ
open_connections [] = []
open_connections (connection_open (some c) ∷ cs) = c ∷ open_connections cs
open_connections (connection_close c ∷ cs) = erase c (open_connections cs)
open_connections (_ ∷ cs) = open_connections cs
