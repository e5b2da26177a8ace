-- ===== src/ExternalClient/Quic/Handles/Lone.antt =====
-- Which connections of QuicCommunication are open, and which one it knows.
use module_gateway.Common.{
  ℕ, Bool, true, false, List, [], ◌∷◌, Option, none, some, if◌then◌else◌, ◌≡◌, ◌∙◌, ◌↔◌, refl, ap,
  arith, Option-cases, inl, inr,
}
use module_gateway.ExternalClient.Connection.{connecting}
use module_gateway.ExternalClient.Quic.{is_not_connected}
use module_gateway.ExternalClient.Quic.Streams.{erase}
use module_gateway.ExternalClient.Quic.Handles.{
  Handles, call, start_connection, open_connection, initialize, close_connection, construct,
  load_ms_quic, init_registration, configuration_open_call, init_configuration, on_connected_event,
  on_peer_shutdown, begin_shutdown_complete, end_shutdown_complete, open_connections,
}

-- The calls and events, each of them run whole.
pub data Event : Type 0 where
  initialize_call : Option ℕ → Bool → Event
  close_call connected_event peer_shutdown_event : Event
  shutdown_complete_event : ℕ → Event

unfoldable pub step : Event → Handles → Option Handles
step (initialize_call opened starts) h = initialize opened starts h
step close_call h = some (close_connection h)
step connected_event h = some (on_connected_event h)
step peer_shutdown_event h = some (on_peer_shutdown h)
step (shutdown_complete_event c) h = some (end_shutdown_complete c (begin_shutdown_complete h))

abbrev pub and_then : (Handles → Option Handles) → Option Handles → Option Handles
and_then f none = none
and_then f (some h) = f h

unfoldable pub run : List Event → Handles → Option Handles
run [] h = some h
run (e ∷ es) h = and_then (run es) (step e h)

abbrev pub known : Option ℕ → List ℕ
known none = []
known (some c) = c ∷ []

abbrev pub is_some : Option ℕ → Bool
is_some none = false
is_some (some c) = true

-- The library is open; the open connection is the known one, and there is one unless not connected.
abbrev pub Lone : Handles → Type 0
Lone h =
    (h.quic ≡ true)
    × (open_connections h.calls ≡ known h.connection)
    × (is_not_connected h.state ≡ (if is_some h.connection then false else true))

-- The events of a connection are raised for the one that is open.
abbrev pub IsRaised : Event → Handles → Type 0
IsRaised (shutdown_complete_event c) h = h.connection ≡ some c
IsRaised peer_shutdown_event h = is_some h.connection ≡ true
IsRaised _ h = Unit {0}

abbrev pub OnResult : (Handles → Type 0) → Option Handles → Type 0
OnResult P none = Unit {0}
OnResult P (some h) = P h

abbrev pub Documented : List Event → Handles → Type 0
Documented [] h = Unit {0}
Documented (e ∷ es) h = IsRaised e h × OnResult (Documented es) (step e h)

abbrev pub LoneResult : Option Handles → Type 0
LoneResult none = ⊥
LoneResult (some h) = Lone h

pub erase-same : (c : ℕ) (cs : List ℕ) → erase c (c ∷ cs) ≡ cs
unfolding erase
erase-same c cs = ground arith

none_open : (h : Handles) → Lone h → is_not_connected h.state ≡ true → open_connections h.calls ≡ []
none_open h lone e = elim (Option-cases h.connection) [
  | inl n ↦ ground (arith, lone, n)
  | inr (c, n) ↦ ground (arith, lone, n, e)
]

open_connection-Lone :
    (opened : Option ℕ) (starts : Bool) (h : Handles)
    → Lone h
    → is_not_connected h.state ≡ true
    → Lone (open_connection opened starts (record h { state = connecting }))
unfolding open_connection start_connection call
open_connection-Lone none starts h lone e = ground (arith, lone, e)
open_connection-Lone (some c) true h lone e = (lone.0, ap (λ cs. c ∷ cs) (none_open h lone e), refl)
open_connection-Lone (some c) false h lone e =
    (lone.0, erase-same c (open_connections h.calls) ∙ none_open h lone e, refl)

guarded-LoneResult :
    (free has_library : Bool) (opened h : Handles)
    → (free ≡ true → Lone opened)
    → has_library ≡ true
    → Lone h
    → LoneResult (if free then (if has_library then some opened else none) else some h)
guarded-LoneResult false has_library opened h made e lone = lone
guarded-LoneResult true true opened h made e lone = made refl
guarded-LoneResult true false opened h made e lone = cc

initialize-Lone :
    (opened : Option ℕ) (starts : Bool) (h : Handles)
    → Lone h
    → LoneResult (initialize opened starts h)
unfolding initialize
initialize-Lone opened starts h lone =
    guarded-LoneResult (is_not_connected h.state) h.quic
      (open_connection opened starts (record h { state = connecting })) h
      (open_connection-Lone opened starts h lone) lone.0 lone

close_connection-Lone : (h : Handles) → Lone h → Lone (close_connection h)
unfolding close_connection call
close_connection-Lone h lone = ground (arith, lone)

shutdown_complete-Lone :
    (c : ℕ) (h : Handles)
    → Lone h
    → h.connection ≡ some c
    → Lone (end_shutdown_complete c (begin_shutdown_complete h))
unfolding end_shutdown_complete begin_shutdown_complete call
shutdown_complete-Lone c h lone e =
    let one : open_connections h.calls ≡ c ∷ [] = lone.1 ∙ ap known e in
    ground (arith, lone, ap (erase c) one, erase-same c [])

step-Lone : (e : Event) (h : Handles) → Lone h → IsRaised e h → LoneResult (step e h)
unfolding step on_connected_event on_peer_shutdown
step-Lone (initialize_call opened starts) h lone raised = initialize-Lone opened starts h lone
step-Lone close_call h lone raised = close_connection-Lone h lone
step-Lone connected_event h lone raised = ground (arith, lone)
step-Lone peer_shutdown_event h lone raised = ground (arith, lone, raised)
step-Lone (shutdown_complete_event c) h lone raised = shutdown_complete-Lone c h lone raised

and_then-LoneResult :
    (f : Handles → Option Handles) (P : Handles → Type 0) (result : Option Handles)
    → ((h : Handles) → Lone h → P h → LoneResult (f h))
    → LoneResult result
    → OnResult P result
    → LoneResult (and_then f result)
and_then-LoneResult f P none ih lone d = lone
and_then-LoneResult f P (some h) ih lone d = ih h lone d

run-Lone : (es : List Event) (h : Handles) → Lone h → Documented es h → LoneResult (run es h)
unfolding run
run-Lone [] h lone d = lone
run-Lone (e ∷ es) h lone d =
    and_then-LoneResult (run es) (Documented es) (step e h) (run-Lone es) (step-Lone e h lone d.0)
      d.1

result_of :
    (result : Option Handles) → LoneResult result → (h : Handles) × (result ≡ some h) × Lone h
result_of none lone = absurd lone
result_of (some h) lone = (h, refl, lone)

construct-Lone :
    (registers configures loads : Bool) → Lone (construct true registers configures loads)
unfolding construct load_ms_quic init_registration init_configuration configuration_open_call call
construct-Lone true configures loads = (refl, refl, refl)
construct-Lone false configures loads = (refl, refl, refl)

-- After any documented run of a channel whose library has opened, `initializeConnection` has not
-- dereferenced a null `quic_`, and there is a lone connection or none.
pub run-construct-Lone :
    (registers configures loads : Bool) (es : List Event)
    → Documented es (construct true registers configures loads)
    → (h : Handles) × (run es (construct true registers configures loads) ≡ some h) × Lone h
run-construct-Lone registers configures loads es d =
    let start = construct true registers configures loads in
    result_of (run es start) (run-Lone es start (construct-Lone registers configures loads) d)

-- The channel is constructed so that a connection can be made exactly if the library opened.
pub initialize-construct :
    (library registers configures loads starts : Bool) (opened : Option ℕ)
    → (initialize opened starts (construct library registers configures loads) ≡ none)
      ↔ (library ≡ false)
unfolding initialize construct load_ms_quic init_registration init_configuration
    configuration_open_call call
initialize-construct false registers configures loads starts opened = (λ e. refl, λ e. refl)
initialize-construct true true configures loads starts opened = (λ e. cc, λ e. cc)
initialize-construct true false configures loads starts opened = (λ e. cc, λ e. cc)
