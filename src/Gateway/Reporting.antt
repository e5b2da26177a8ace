-- ===== src/Gateway/Reporting.antt =====
-- A status from the device's socket through both queues, and the command that answers it.
mod Taking
use module_gateway.Common.{
  ℕ, true, false, List, [], ◌∷◌, ◌++◌, Option, none, some, map, if◌then◌else◌, ◌≡◌, ◌⊎◌, inl, inr,
  refl, ap, ◌∙◌, arith,
}
use module_gateway.Common.Dict.{find}
use module_gateway.Common.Dict.Numbers.{number_eq}
use module_gateway.Structures.Buffer.{Buffer, empty_buffer}
use module_gateway.Structures.Device.{DeviceIdentification}
use module_gateway.Structures.Outcome.{returned}
use module_gateway.Structures.ReturnCode.{ReturnCode, count, command_invalid, is_ok, is_not_ok}
use module_gateway.Structures.Messages.{
  DeviceStatus, InternalClient, device_status, client_message, create_command_message,
  disconnect_message,
}
use module_gateway.StatusAggregator.{
  StatusAggregator, add_status_to_aggregator, get_command, messages_of,
}
use module_gateway.InternalServer.Connections.{
  Server, find_connection, update, push, handle_status, begin_message,
}
use module_gateway.InternalServer.Connections.Registry.{
  Distinct, find_connection-update, update-Distinct,
}
use module_gateway.InternalServer.Connections.Arbitration.{remove_conn-gone}
use module_gateway.InternalServer.Connections.System
use module_gateway.InternalServer.Connections.System.{
  System, idle, waiting, gone, receives, finishes, receive_in, finish_in, continue_if, drop,
  set_phase,
}
use module_gateway.ModuleHandler.{
  Exchange, handle_status as answer_device, status_buffer, status_message, command_message,
}
use module_gateway.ModuleHandler.Answers.{handle_status-answers}
use module_gateway.ModuleHandler.Dispatch.{
  Module, ModuleHandler, exchange_of, store, with_module, dispatch, handle_message,
}
use module_gateway.Gateway.{
  Gateway, Event, receives_message, handles_message, reads_response, ends_wait, listen_to_queue,
  step, run,
}
use module_gateway.Gateway.Serving.{Quiet, run-receives, run-handles, run-response}
use module_gateway.Gateway.Reporting.Taking.{taken, taken-found, run-taken, run-unanswered}

-- The device has its command and may go on, and its messages are on their way to the external server.
abbrev pub Replied :
    Gateway → Gateway → ℕ → DeviceIdentification → StatusAggregator → Buffer → Type 0
Replied g g' i d a command =
    (g'.system.server.sent ≡ g.system.server.sent ++ (i, create_command_message d command) ∷ [])
    × (g'.handler.to_external
        ≡ g.handler.to_external ++ map (status_message false d) (messages_of d a.devices))
    × (find_connection g'.system.server d ≡ some i)
    × ((g'.system.server.connection i).ready ≡ true)
    × (g'.system.phase i ≡ idle)
    × (g'.system.server.from_internal ≡ [])

-- Nothing was sent, and the connection has been dropped.
abbrev pub Dropped : Gateway → Gateway → ℕ → DeviceIdentification → DeviceIdentification → Type 0
Dropped g g' i d e =
    (g'.system.server.sent ≡ g.system.server.sent)
    × (g'.handler.to_external ≡ g.handler.to_external)
    × (find_connection g'.system.server d ≡ none)
    × (g'.system.phase i ≡ gone)
    × (g'.system.server.from_internal ≡ disconnect_message e ∷ [])

module _ (parse : List ℕ → Option InternalClient) (fuel now : ℕ) where
  run-Replied :
      (g : Gateway) (i : ℕ) (status : DeviceStatus) (x : Exchange) (a : StatusAggregator)
      (e : DeviceIdentification) (command : Buffer)
      → let d = status.device in
        let s = g.system.server in
        g.handler.to_internal ≡ []
        → (s.connection i).socket_open ≡ true
        → (s.connection i).writable ≡ true
        → find_connection s d ≡ some i
        → (s.connection i).device_id ≡ some e
        → e.priority ≡ d.priority
        → x.to_internal ≡ g.handler.to_internal ++ command_message d command ∷ []
        → x.to_external
          ≡ g.handler.to_external ++ map (status_message false d) (messages_of d a.devices)
        → (g' : Gateway) × (run parse fuel (taken g i status x) (reads_response ∷ ends_wait i ∷ [])
            ≡ some (returned g'))
          × Replied g g' i d a command
  unfolding store update create_command_message
  run-Replied g i status x a e command none_out is_open takes found named same_priority answer
        sent_on =
      let (g', ran, handler, empty, sent, still, ready, goes_on) =
        run-response parse fuel (taken g i status x) (create_command_message status.device command)
          i (answer ∙ ap (λ l. l ++ command_message status.device command ∷ []) none_out)
          (ground arith) (taken-found g i status x status.device ∙ found) (ground arith)
          (ground arith) (ground arith) in
      (g', ran, (sent, ap (λ h. h.to_external) handler ∙ sent_on, still, ready, goes_on, empty))

  run-Dropped :
      (g : Gateway) (i : ℕ) (status : DeviceStatus) (x : Exchange) (e : DeviceIdentification)
      → let s = g.system.server in
        g.handler.to_internal ≡ []
        → Distinct s.connection s.connected
        → find_connection s status.device ≡ some i
        → (s.connection i).device_id ≡ some e
        → x.to_internal ≡ g.handler.to_internal
        → x.to_external ≡ g.handler.to_external
        → (g' : Gateway) × (run parse fuel (taken g i status x) (reads_response ∷ ends_wait i ∷ [])
            ≡ some (returned g'))
          × Dropped g g' i status.device e
  unfolding store update drop
  run-Dropped g i status x e none_out distinct found named quiet same =
      let s = g.system.server in
      let kept = update-Distinct i (λ c. record c { ready = false }) s (λ c. refl) distinct in
      let (lost, queued, silent) =
        remove_conn-gone (taken g i status x).system.server i status.device e kept
          (taken-found g i status x status.device ∙ found) (ground arith) in
      (
        record (taken g i status x) {
          system = drop i (taken g i status x).system.server (taken g i status x).system.phase;
        },
        run-unanswered parse fuel (taken g i status x) i (quiet ∙ none_out) (ground arith)
            (ground arith),
        (silent, same, lost, ground arith, queued),
      )

  -- A connected device sends a status over its ready connection, whose socket takes writes, with the
  -- priority that it is connected with, while both queues are empty and no timer has left a message. Its
  -- module is there, supports it, and accepts the status. Then one round of each thread ends in one of
  -- two ways. Either the device gets one command over its own socket, the one that the aggregator gives
  -- for the status, or an empty one where it has none; everything that was aggregated for the device
  -- is queued for the external server in order, and the connection is ready and goes on receiving. Or
  -- the library could not generate a command: nothing is sent, nobody is connected as the device any
  -- more, and its disconnect message is queued for the module handler.
  pub run-status :
      (g : Gateway) (i : ℕ) (bytes : List ℕ) (status : DeviceStatus) (e : DeviceIdentification)
      (m : Module) (n : ℕ)
      → let d = status.device in
        let b = status_buffer status.status_data in
        let s = g.system.server in
        let added = add_status_to_aggregator m.library now m.aggregator b d in
        parse bytes ≡ some (device_status status)
        → Quiet g.handler
        → s.from_internal ≡ []
        → g.handler.to_internal ≡ []
        → g.system.phase i ≡ idle
        → (s.connection i).ready ≡ true
        → (s.connection i).socket_open ≡ true
        → (s.connection i).writable ≡ true
        → Distinct s.connection s.connected
        → find_connection s d ≡ some i
        → (s.connection i).device_id ≡ some e
        → e.priority ≡ d.priority
        → find number_eq d.module_number g.handler.modules ≡ some m
        → is_ok (m.library.is_device_type_supported d.device_type) ≡ true
        → is_not_ok (m.library.status_data_valid b d.device_type) ≡ false
        → added.1 ≡ count n
        → (g' : Gateway) × (a : StatusAggregator) × (rc : ReturnCode) × (command : Buffer) × (run
              parse fuel g
              (receives_message i bytes ∷ handles_message now ∷ reads_response ∷ ends_wait i ∷ [])
            ≡ some (returned g'))
          × (get_command m.library added.0 b d empty_buffer ≡ returned (a, rc, command))
          × (Replied g g' i d added.0 (if is_ok rc then command else empty_buffer)
              ⊎ ((rc ≡ command_invalid) × Dropped g g' i d e))
  run-status g i bytes status e m n parsed quiet none_in none_out phase ready is_open takes distinct
        found named same_priority there supported valid r =
      let h = g.handler in
      let d = status.device in
      let b = status_buffer status.status_data in
      let added = add_status_to_aggregator m.library now m.aggregator b d in
      let (x, a, rc, command, handled, got, answered) =
        handle_status-answers m.library now (exchange_of h m) status n supported valid r in
      let start =
        run-taken parse fuel now g i bytes status m x (reads_response ∷ ends_wait i ∷ []) parsed
          quiet none_in phase ready there handled in
      elim answered [
        | inl (answer, sent_on, _) ↦
            let (g', ran, replied) =
              run-Replied g i status x added.0 e (if is_ok rc then command else empty_buffer)
                none_out is_open takes found named same_priority answer sent_on in
            (g', a, rc, command, start ∙ ran, got, inl replied)
        | inr (invalid, nothing_sent, same) ↦
            let (g', ran, dropped) =
              run-Dropped g i status x e none_out distinct found named nothing_sent same in
            (g', a, rc, command, start ∙ ran, got, inr (invalid, dropped))
      ]
