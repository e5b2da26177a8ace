-- ===== src/Gateway/Serving.antt =====
-- The rounds of the gateway's two threads where nothing else waits.
use module_gateway.Common.{ℕ, true, false, List, [], ◌∷◌, ◌++◌, Option, some, ◌≡◌, ap, refl, arith}
use module_gateway.Common.Dict.{Dict, Entries}
use module_gateway.Structures.Outcome.{returned}
use module_gateway.Structures.Messages.{
  InternalClient, InternalClientMessage, InternalServer, ModuleHandlerMessage, server_message,
}
use module_gateway.InternalServer.Connections.System
use module_gateway.InternalServer.Connections.System.{
  System, idle, waiting, receives, set_phase, finish_in, continue_if,
}
use module_gateway.InternalServer.Connections.{
  Server, find_connection, priority_of, response_device, send_response, update, validate_response,
}
use module_gateway.InternalServer.Connections.Registry.{find_connection-update}
use module_gateway.ModuleHandler.Timeouted.{check_timeouted_messages}
use module_gateway.ModuleHandler.Dispatch.{Module, ModuleHandler, handle_message}
use module_gateway.ModuleHandler.Loops.{check_modules, check_all, handle_messages_round}
use module_gateway.Gateway.{
  Gateway, Event, receives_message, handles_message, reads_response, ends_wait, with_queue,
  handle_round, listen_to_queue, step, run,
}

-- No timer has left a message in any module.
abbrev pub Quiet : ModuleHandler → Type 0
Quiet h = Entries (λ key m. m.aggregator.timeouted_message_ready ≡ false) h.modules

check_modules-Quiet :
    (fuel : ℕ) (ms : Dict ℕ Module) (to_internal : List ModuleHandlerMessage)
    (to_external : List InternalClientMessage)
    → Entries (λ key m. m.aggregator.timeouted_message_ready ≡ false) ms
    → check_modules fuel ms to_internal to_external
      ≡ some (record { modules = ms; to_internal = to_internal; to_external = to_external })
unfolding check_modules check_timeouted_messages
check_modules-Quiet fuel [] ti te h = refl
check_modules-Quiet fuel ((key, m) ∷ ms) ti te h = rw (h.0, check_modules-Quiet fuel ms ti te h.1)

check_all-Quiet : (fuel : ℕ) (h : ModuleHandler) → Quiet h → check_all fuel h ≡ some h
unfolding check_all
check_all-Quiet fuel h q =
    ground (arith, check_modules-Quiet fuel h.modules h.to_internal h.to_external q)

-- The one message that waits is handled.
handle_round-one :
    (fuel now : ℕ) (g : Gateway) (m : InternalClientMessage) (h : ModuleHandler)
    → Quiet g.handler
    → g.system.server.from_internal ≡ m ∷ []
    → handle_message now g.handler m ≡ returned h
    → handle_round fuel now g
      ≡ some (returned (record { system = with_queue [] g.system; handler = h }))
unfolding handle_round handle_messages_round
handle_round-one fuel now g m h q one handled =
    ground (arith, check_all-Quiet fuel g.handler q, one, handled)

-- A response for a connected device with its priority, whose socket takes it.
pub validate_response-sent :
    (s : Server) (m : InternalServer) (i : ℕ)
    → find_connection s (response_device m) ≡ some i
    → priority_of (s.connection i) ≡ (response_device m).priority
    → (s.connection i).socket_open ≡ true
    → (s.connection i).writable ≡ true
    → let r = validate_response s m in
      (r.sent ≡ s.sent ++ (i, m) ∷ [])
      × ((r.connection i).ready ≡ true)
      × (find_connection r (response_device m) ≡ some i)
      × (r.from_internal ≡ s.from_internal)
unfolding validate_response send_response update find_connection
validate_response-sent s m i f p open_ takes =
    let sent = (send_response s i m).0 in
    let kept =
      find_connection-update i (λ c. record c { ready = true }) sent (λ c. refl)
        (response_device m) in
    (ground (arith, f, p), ground (arith, f, p), ground (arith, f, p, kept), ground (arith, f, p))

module _ (parse : List ℕ → Option InternalClient) (fuel : ℕ) where
  pub run-receives :
      (g : Gateway) (y : System) (i : ℕ) (bytes : List ℕ) (es : List Event)
      → System.step parse g.system (receives i bytes) ≡ y
      → run parse fuel g (receives_message i bytes ∷ es)
        ≡ run parse fuel (record g { system = y }) es
  unfolding step run
  run-receives g y i bytes es h = ap (λ x. run parse fuel (record g { system = x }) es) h

  -- A round of the module handler, where one message waits.
  pub run-handles :
      (now : ℕ) (g : Gateway) (m : InternalClientMessage) (h : ModuleHandler) (es : List Event)
      → Quiet g.handler
      → g.system.server.from_internal ≡ m ∷ []
      → handle_message now g.handler m ≡ returned h
      → run parse fuel g (handles_message now ∷ es)
        ≡ run parse fuel (record { system = with_queue [] g.system; handler = h }) es
  unfolding step run
  run-handles now g m h es q one handled =
      ground (arith, handle_round-one fuel now g m h q one handled)

  -- A response that waits alone is sent to the device that waits for it, which goes on receiving.
  pub run-response :
      (g : Gateway) (m : InternalServer) (i : ℕ)
      → g.handler.to_internal ≡ server_message false m ∷ []
      → g.system.phase i ≡ waiting
      → find_connection g.system.server (response_device m) ≡ some i
      → priority_of (g.system.server.connection i) ≡ (response_device m).priority
      → (g.system.server.connection i).socket_open ≡ true
      → (g.system.server.connection i).writable ≡ true
      → (g' : Gateway) × (run parse fuel g (reads_response ∷ ends_wait i ∷ []) ≡ some (returned g'))
        × (g'.handler ≡ record g.handler { to_internal = [] })
        × (g'.system.server.from_internal ≡ g.system.server.from_internal)
        × (g'.system.server.sent ≡ g.system.server.sent ++ (i, m) ∷ [])
        × (find_connection g'.system.server (response_device m) ≡ some i)
        × ((g'.system.server.connection i).ready ≡ true)
        × (g'.system.phase i ≡ idle)
  unfolding step run listen_to_queue System.step finish_in continue_if
  run-response g m i one waits f p is_open takes =
      let server = validate_response g.system.server m in
      let (sent, ready, still, queue) =
        validate_response-sent g.system.server m i f p is_open takes in
      (
        record {
          system = record { server = server; phase = set_phase i idle g.system.phase };
          handler = record g.handler { to_internal = [] };
        },
        ground (arith, one, waits, ready),
        refl,
        queue,
        sent,
        still,
        ready,
        ground arith,
      )
