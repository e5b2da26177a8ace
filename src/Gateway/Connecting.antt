-- ===== src/Gateway/Connecting.antt =====
-- A connect message from the device's socket through both queues and back.
use module_gateway.Common.{
  ℕ, true, false, List, [], ◌∷◌, ◌++◌, Option, none, some, if◌then◌else◌, ◌≡◌, inl, inr, ap, ◌∙◌,
  refl, arith, Option-cases,
}
use module_gateway.Common.Dict.{find}
use module_gateway.Common.Dict.Numbers.{number_eq}
use module_gateway.Common.Dict.Laws.{modify_same}
use module_gateway.Structures.Device.{DeviceIdentification}
use module_gateway.Structures.Outcome.{returned}
use module_gateway.Structures.ReturnCode.{is_not_ok}
use module_gateway.Structures.Messages.{
  InternalClient, ResponseType, device_connect, connect_response, client_message, server_message,
  response_ok, module_not_supported, response_device_not_supported,
}
use module_gateway.InternalServer.Connections.{
  Server, find_connection, update, handle_connection, connect_new_device, begin_message,
}
use module_gateway.InternalServer.Connections.Registry.{find_in-none}
use module_gateway.InternalServer.Connections.Arbitration.{connected_found}
use module_gateway.InternalServer.Connections.System
use module_gateway.InternalServer.Connections.System.{
  System, idle, waiting, receives, responds, finishes, receive_in, finish_in, continue_if,
  set_phase,
}
use module_gateway.ModuleHandler.{handle_connect, send_connect_response}
use module_gateway.ModuleHandler.Dispatch.{
  Module, ModuleHandler, store, with_module, dispatch, handle_message,
}
use module_gateway.Gateway.{
  Gateway, receives_message, handles_message, reads_response, ends_wait, with_queue, run,
}
use module_gateway.Gateway.Serving.{Quiet, run-receives, run-handles, run-response}

-- What the modules say of a device that connects.
abbrev pub answer_of : Option Module → DeviceIdentification → ResponseType
answer_of none d = module_not_supported
answer_of (some m) d =
    if is_not_ok (m.library.is_device_type_supported d.device_type)
    then response_device_not_supported
    else response_ok

handle_message-connect :
    (now : ℕ) (h : ModuleHandler) (d : DeviceIdentification)
    → handle_message now h (client_message false (device_connect d))
      ≡ returned (record h {
        to_internal =
            h.to_internal
            ++ server_message false
                (connect_response d (answer_of (find number_eq d.module_number h.modules) d))
              ∷ [];
      })
unfolding handle_message dispatch with_module store handle_connect send_connect_response
handle_message-connect now h d = elim (Option-cases (find number_eq d.module_number h.modules)) [
  | inl e ↦ ground (arith, e)
  | inr (m, e) ↦
      let same =
        modify_same number_eq d.module_number
          (λ (k : Module). record k { aggregator = m.aggregator }) h.modules e refl in
      ground (arith, e, same)
]

receive_in-device_connect :
    (parse : List ℕ → Option InternalClient) (y : System) (i : ℕ) (bytes : List ℕ)
    (d : DeviceIdentification)
    → parse bytes ≡ some (device_connect d)
    → y.phase i ≡ idle
    → (y.server.connection i).ready ≡ false
    → find_connection y.server d ≡ none
    → System.step parse y (receives i bytes)
      ≡ record { server = connect_new_device y.server i d; phase = set_phase i waiting y.phase }
unfolding System.step receive_in begin_message handle_connection continue_if
receive_in-device_connect parse y i bytes d parsed phase unready free = ground arith

connect_new_device-alone :
    (s : Server) (i : ℕ) (d : DeviceIdentification)
    → s.from_internal ≡ []
    → let r = connect_new_device s i d in
      (r.connection i ≡ record (s.connection i) { device_id = some d })
      × (r.from_internal ≡ client_message false (device_connect d) ∷ [])
      × (r.sent ≡ s.sent)
unfolding connect_new_device update
connect_new_device-alone s i d h = (ground arith, ground arith, refl)

connect_new_device-found :
    (s : Server) (i : ℕ) (d : DeviceIdentification)
    → find_connection s d ≡ none
    → find_connection (record (connect_new_device s i d) { from_internal = [] }) d ≡ some i
unfolding find_connection
connect_new_device-found s i d free =
    connected_found s i d (find_in-none s.connection d s.connected free)

module _ (parse : List ℕ → Option InternalClient) (fuel now : ℕ) where
  -- A device that nobody is connected as sends its connect message over a connection that is not
  -- ready and whose socket takes writes, while both queues are empty and no timer has left a message.
  -- Then one round of each thread answers it: the device is told what its module says of it, over its
  -- own socket and nothing else is sent; its connection is the one found for the device, is ready,
  -- and goes on receiving, whatever the answer was; and the modules and the queues are as before.
  pub run-connect :
      (g : Gateway) (i : ℕ) (bytes : List ℕ) (d : DeviceIdentification)
      → parse bytes ≡ some (device_connect d)
      → Quiet g.handler
      → g.system.server.from_internal ≡ []
      → g.handler.to_internal ≡ []
      → g.system.phase i ≡ idle
      → (g.system.server.connection i).ready ≡ false
      → (g.system.server.connection i).socket_open ≡ true
      → (g.system.server.connection i).writable ≡ true
      → find_connection g.system.server d ≡ none
      → let answer = answer_of (find number_eq d.module_number g.handler.modules) d in
        (g' : Gateway) × (run parse fuel g
            (receives_message i bytes ∷ handles_message now ∷ reads_response ∷ ends_wait i ∷ [])
          ≡ some (returned g'))
        × (g'.handler ≡ g.handler)
        × (g'.system.server.from_internal ≡ [])
        × (g'.system.server.sent ≡ g.system.server.sent ++ (i, connect_response d answer) ∷ [])
        × (find_connection g'.system.server d ≡ some i)
        × ((g'.system.server.connection i).ready ≡ true)
        × (g'.system.phase i ≡ idle)
  run-connect g i bytes d parsed quiet none_in none_out phase unready is_open takes free =
      let h = g.handler in
      let r = connect_response d (answer_of (find number_eq d.module_number h.modules) d) in
      let s = connect_new_device g.system.server i d in
      let y : System = record { server = s; phase = set_phase i waiting g.system.phase } in
      let h' : ModuleHandler = record h {
        to_internal = h.to_internal ++ server_message false r ∷ [];
      } in
      let g₁ : Gateway = record g { system = y } in
      let (named, queued, nothing_sent) = connect_new_device-alone g.system.server i d none_in in
      let found = connect_new_device-found g.system.server i d free in
      let (g', ran, kept, empty, sent, still, ready, goes_on) =
        run-response parse fuel (record { system = with_queue [] y; handler = h' }) r i
          (rw none_out refl) (ground arith) found (rw named refl) (rw named is_open)
          (rw named takes) in
      (
        g',
        run-receives parse fuel g y i bytes _
              (receive_in-device_connect parse g.system i bytes d parsed phase unready free)
            ∙ run-handles parse fuel now g₁ (client_message false (device_connect d)) h' _ quiet
                queued (handle_message-connect now h d)
            ∙ ran,
        kept ∙ ground (arith, none_out),
        empty,
        sent ∙ ap (λ l. l ++ (i, r) ∷ []) nothing_sent,
        still,
        ready,
        goes_on,
      )
