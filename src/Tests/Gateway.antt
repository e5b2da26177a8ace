-- ===== src/Tests/Gateway.antt =====
-- The theorems on the server and the module handler together, applied to a gateway with one module.
use module_gateway.Structures.Device.{same_device}
use module_gateway.Common.{
  ℕ, true, false, List, [], ◌∷◌, ◌++◌, Option, some, if◌then◌else◌, ◌≡◌, ◌⊎◌, refl,
}
use module_gateway.Common.Dict.{contains, find}
use module_gateway.Common.Dict.Numbers.{number_eq}
use module_gateway.Structures.Buffer.{Buffer, empty_buffer}
use module_gateway.Structures.Outcome.{returned}
use module_gateway.Structures.ReturnCode.{ReturnCode, command_invalid, is_ok}
use module_gateway.Structures.Messages.{
  DeviceStatus, InternalClient, device_connect, device_status, connect_response,
}
use module_gateway.StatusAggregator.{StatusAggregator, add_status_to_aggregator, get_command}
use module_gateway.InternalServer.Connections.{Connection, find_connection, find_in, is_same}
use module_gateway.InternalServer.Connections.System.{idle, new_connection}
use module_gateway.ModuleHandler.{status_buffer}
use module_gateway.ModuleHandler.Dispatch.{Module}
use module_gateway.Gateway.{
  Gateway, receives_message, handles_message, reads_response, ends_wait, run,
}
use module_gateway.Gateway.Connecting.{answer_of, run-connect}
use module_gateway.Gateway.Reporting.{Dropped, Replied, run-status}
use module_gateway.Tests.{button, sample_library}

abbrev sample_module : Module
sample_module = record {
  library = sample_library;
  aggregator = record {
    devices = [];
    device_timeouts = [];
    timeouted_message_ready = false;
    posted = [];
  };
}

abbrev gateway_of : Connection → List ℕ → Gateway
gateway_of c connected = record {
  system = record {
    server = record { connection = λ i. c; connected = connected; from_internal = []; sent = [] };
    phase = λ i. idle;
  };
  handler = record { modules = (1, sample_module) ∷ []; to_internal = []; to_external = [] };
}

abbrev new_gateway : Gateway
new_gateway = gateway_of new_connection []

abbrev parse_connect : List ℕ → Option InternalClient
parse_connect bytes = some (device_connect button)

run-connect_example :
    let answer = answer_of (find number_eq 1 new_gateway.handler.modules) button in
    (g' : Gateway) × (run parse_connect 1 new_gateway
        (receives_message 0 [] ∷ handles_message 5 ∷ reads_response ∷ ends_wait 0 ∷ [])
      ≡ some (returned g'))
    × (g'.handler ≡ new_gateway.handler)
    × (g'.system.server.from_internal ≡ [])
    × (g'.system.server.sent ≡ [] ++ (0, connect_response button answer) ∷ [])
    × (find_connection g'.system.server button ≡ some 0)
    × ((g'.system.server.connection 0).ready ≡ true)
    × (g'.system.phase 0 ≡ idle)
unfolding find_connection find_in
run-connect_example =
    run-connect parse_connect 1 5 new_gateway 0 [] button refl (refl, tt) refl refl refl refl refl
      refl refl

abbrev button_connection : Connection
button_connection = record {
  device_id = some button;
  ready = true;
  socket_open = true;
  writable = true;
}

abbrev connected_gateway : Gateway
connected_gateway = gateway_of button_connection (0 ∷ [])

abbrev pressed : DeviceStatus
pressed = record { device = button; status_data = 1 ∷ [] }

abbrev parse_status : List ℕ → Option InternalClient
parse_status bytes = some (device_status pressed)

run-status_example :
    let b = status_buffer (1 ∷ []) in
    let added = add_status_to_aggregator sample_library 5 sample_module.aggregator b button in
    (g' : Gateway) × (a : StatusAggregator) × (rc : ReturnCode) × (command : Buffer) × (run
        parse_status 1 connected_gateway
        (receives_message 0 [] ∷ handles_message 5 ∷ reads_response ∷ ends_wait 0 ∷ [])
      ≡ some (returned g'))
    × (get_command sample_library added.0 b button empty_buffer ≡ returned (a, rc, command))
    × (Replied connected_gateway g' 0 button added.0 (if is_ok rc then command else empty_buffer)
        ⊎ ((rc ≡ command_invalid) × Dropped connected_gateway g' 0 button button))
unfolding find_connection find_in is_same same_device find add_status_to_aggregator contains
run-status_example =
    run-status parse_status 1 5 connected_gateway 0 [] pressed button sample_module 1 refl
      (refl, tt) refl refl refl refl refl refl (tt, tt) refl refl refl refl refl refl refl
