-- ===== src/Gateway/Reporting/Taking.antt =====
-- The way of a status to the module handler, and what follows where no answer comes.
use module_gateway.Common.{
  ℕ, true, false, List, [], ◌∷◌, ◌++◌, Option, some, ◌≡◌, refl, ap, ◌∙◌, arith,
}
use module_gateway.Common.Dict.{find}
use module_gateway.Common.Dict.Numbers.{number_eq}
use module_gateway.Structures.Device.{DeviceIdentification}
use module_gateway.Structures.Outcome.{returned}
use module_gateway.Structures.Messages.{DeviceStatus, InternalClient, device_status, client_message}
use module_gateway.InternalServer.Connections.{
  Server, find_connection, update, push, handle_status, begin_message,
}
use module_gateway.InternalServer.Connections.Registry.{find_connection-update}
use module_gateway.InternalServer.Connections.System
use module_gateway.InternalServer.Connections.System.{
  System, idle, waiting, gone, receives, finishes, receive_in, finish_in, continue_if, drop,
  set_phase,
}
use module_gateway.ModuleHandler.{Exchange, handle_status as answer_device}
use module_gateway.ModuleHandler.Dispatch.{
  Module, ModuleHandler, exchange_of, store, with_module, dispatch, handle_message,
}
use module_gateway.Gateway.{
  Gateway, Event, receives_message, handles_message, reads_response, ends_wait, listen_to_queue,
  step, run,
}
use module_gateway.Gateway.Serving.{Quiet, run-receives, run-handles}

handle_message-status :
    (now : ℕ) (h : ModuleHandler) (m : Module) (status : DeviceStatus) (y : Exchange)
    → find number_eq status.device.module_number h.modules ≡ some m
    → answer_device m.library now (exchange_of h m) status ≡ returned y
    → handle_message now h (client_message false (device_status status))
      ≡ returned (store h status.device.module_number y)
unfolding handle_message dispatch with_module
handle_message-status now h m status y f e = ground (arith, f, e)

-- The server while the status is handled.
abbrev pub waiting_with : DeviceStatus → ℕ → Server → Server
waiting_with status i s =
    update i (λ c. record c { ready = false })
      (push (client_message false (device_status status)) s)

receive_in-device_status :
    (parse : List ℕ → Option InternalClient) (y : System) (i : ℕ) (bytes : List ℕ)
    (status : DeviceStatus)
    → parse bytes ≡ some (device_status status)
    → y.phase i ≡ idle
    → (y.server.connection i).ready ≡ true
    → System.step parse y (receives i bytes)
      ≡ record { server = waiting_with status i y.server; phase = set_phase i waiting y.phase }
unfolding System.step receive_in begin_message handle_status continue_if
receive_in-device_status parse y i bytes status parsed phase ready = ground arith

-- No answer comes: the wait ends, and the connection is dropped.
pub run-unanswered :
    (parse : List ℕ → Option InternalClient) (fuel : ℕ) (g : Gateway) (i : ℕ)
    → g.handler.to_internal ≡ []
    → g.system.phase i ≡ waiting
    → (g.system.server.connection i).ready ≡ false
    → run parse fuel g (reads_response ∷ ends_wait i ∷ [])
      ≡ some (returned (record g { system = drop i g.system.server g.system.phase }))
unfolding run step listen_to_queue System.step finish_in continue_if
run-unanswered parse fuel g i none_out waits unready = ground arith

-- The gateway once the module handler has made `x` of the status.
abbrev pub taken : Gateway → ℕ → DeviceStatus → Exchange → Gateway
taken g i status x = record {
  system = record {
    server = record (waiting_with status i g.system.server) { from_internal = [] };
    phase = set_phase i waiting g.system.phase;
  };
  handler = store g.handler status.device.module_number x;
}

-- The connection that waits for its answer is found as before.
pub taken-found :
    (g : Gateway) (i : ℕ) (status : DeviceStatus) (x : Exchange) (d : DeviceIdentification)
    → find_connection (taken g i status x).system.server d ≡ find_connection g.system.server d
unfolding find_connection update
taken-found g i status x d =
    find_connection-update i (λ c. record c { ready = false }) g.system.server (λ c. refl) d

module _ (parse : List ℕ → Option InternalClient) (fuel now : ℕ) where
  pub run-taken :
      (g : Gateway) (i : ℕ) (bytes : List ℕ) (status : DeviceStatus) (m : Module) (x : Exchange)
      (es : List Event)
      → parse bytes ≡ some (device_status status)
      → Quiet g.handler
      → g.system.server.from_internal ≡ []
      → g.system.phase i ≡ idle
      → (g.system.server.connection i).ready ≡ true
      → find number_eq status.device.module_number g.handler.modules ≡ some m
      → answer_device m.library now (exchange_of g.handler m) status ≡ returned x
      → run parse fuel g (receives_message i bytes ∷ handles_message now ∷ es)
        ≡ run parse fuel (taken g i status x) es
  run-taken g i bytes status m x es parsed quiet none_in phase ready there handled =
      let y : System = record {
        server = waiting_with status i g.system.server;
        phase = set_phase i waiting g.system.phase;
      } in
      run-receives parse fuel g y i bytes _
        (receive_in-device_status parse g.system i bytes status parsed phase ready)
      ∙ run-handles parse fuel now (record g { system = y })
          (client_message false (device_status status))
          (store g.handler status.device.module_number x) es quiet
          (unfold update in ap (λ l. l ++ client_message false (device_status status) ∷ []) none_in)
          (handle_message-status now g.handler m status x there handled)
