-- ===== src/Gateway.antt =====
-- main.cpp joins the internal server and the module handler by two queues: fromInternalQueue_
-- leads from the server to the module handler, toInternalQueue_ back. Here the two run together.
pub mod Serving
pub mod Connecting
pub mod Reporting
use module_gateway.Common.{ℕ, Bool, false, List, [], ◌∷◌, Option, none, some, if◌then◌else◌}
use module_gateway.Structures.Outcome.{Outcome, returned, thrown}
use module_gateway.Structures.Messages.{InternalClient, InternalClientMessage, ModuleHandlerMessage}
use module_gateway.InternalServer.Connections.System
use module_gateway.InternalServer.Connections.System.{
  System, accepts, receives, finishes, fails, responds, disconnects, peer_changes,
}
use module_gateway.ModuleHandler.Dispatch.{ModuleHandler}
use module_gateway.ModuleHandler.Loops.{Running, handle_messages_round}

-- The server's `from_internal` is the queue that the module handler reads; the server reads the
-- module handler's `to_internal`.
pub record Gateway : Type 0 where
  pub system : System
  pub handler : ModuleHandler

-- What moves next: a socket, the thread of `handleMessages`, or that of `listenToQueue`.
pub data Event : Type 0 where
  accepts_connection : ℕ → Event
  receives_message : ℕ → List ℕ → Event
  ends_wait : ℕ → Event
  receive_fails : ℕ → Event
  peer_changes_socket : ℕ → Bool → Event
  handles_message : ℕ → Event
  reads_response : Event

abbrev pub with_queue : List InternalClientMessage → System → System
with_queue ms y = record y { server = record y.server { from_internal = ms } }

-- A round of `handleMessages` at the time `now`; `none` if the fuel runs out.
unfoldable pub handle_round : ℕ → ℕ → Gateway → Option (Outcome Gateway)
handle_round fuel now g =
    elim (handle_messages_round fuel now [] (record {
      handler = g.handler;
      from_internal = g.system.server.from_internal;
      command_forwarding = [];
    })) [
      | none ↦ none
      | some (thrown x) ↦ some (thrown x)
      | some (returned r) ↦
          some (
            returned (record { system = with_queue r.from_internal g.system; handler = r.handler }))
    ]

module _ (parse : List ℕ → Option InternalClient) where
  -- A round of `listenToQueue`, for the queue as it is.
  unfoldable pub listen_to_queue : List ModuleHandlerMessage → Gateway → Gateway
  listen_to_queue [] g = g
  listen_to_queue (m ∷ ms) g = record {
    system =
        System.step parse g.system
          (if m.disconnected then disconnects m.device_id else responds m.message);
    handler = record g.handler { to_internal = ms };
  }

  unfoldable pub step : ℕ → Gateway → Event → Option (Outcome Gateway)
  step fuel g (accepts_connection i) =
      some (returned (record g { system = System.step parse g.system (accepts i) }))
  step fuel g (receives_message i bytes) =
      some (returned (record g { system = System.step parse g.system (receives i bytes) }))
  step fuel g (ends_wait i) =
      some (returned (record g { system = System.step parse g.system (finishes i false) }))
  step fuel g (receive_fails i) =
      some (returned (record g { system = System.step parse g.system (fails i) }))
  step fuel g (peer_changes_socket i w) =
      some (returned (record g { system = System.step parse g.system (peer_changes i w) }))
  step fuel g (handles_message now) = handle_round fuel now g
  step fuel g reads_response = some (returned (listen_to_queue g.handler.to_internal g))

  unfoldable pub run : ℕ → Gateway → List Event → Option (Outcome Gateway)
  run fuel g [] = some (returned g)
  run fuel g (e ∷ es) = elim (step fuel g e) [
    | none ↦ none
    | some (thrown x) ↦ some (thrown x)
    | some (returned g') ↦ run fuel g' es
  ]
