-- ===== src/ExternalClient/Client/ConnectSequence.antt =====
-- `startExternalConnectSequence` of ExternalClient and the loops in which it takes statuses, and
-- `handleAggregatedMessages`. A round of a loop has what is pushed to toExternalQueue_ before it
-- looks; the end of the rounds is a stopped ioContext.
use module_gateway.Common.{
  ℕ, String, Bool, true, false, ◌||◌, List, [], ◌∷◌, ◌++◌, none, some, if◌then◌else◌,
}
use module_gateway.Common.Dict.{Dict, find}
use module_gateway.Common.Dict.Numbers.{number_eq}
use module_gateway.Structures.ReturnCode.{is_ok}
use module_gateway.Structures.Device.{DeviceIdentification}
use module_gateway.Structures.Messages.{InternalClientMessage}
use module_gateway.ExternalClient.SentMessages.{any_same, erase_device}
use module_gateway.ExternalClient.Connection.{
  not_initialized, ErrorAggregator, ExternalConnection, fill_error_aggregator,
  fill_error_aggregator_with_not_acked_statuses, deinitialize_connection, is_module_supported,
  set_state, rest,
}
use module_gateway.ExternalClient.Connection.Sequence.{initialize_connection}
use module_gateway.ExternalClient.Connection.ConnectedDevices.{
  get_all_connected_devices, force_aggregation_on_all_devices,
}
use module_gateway.ExternalClient.Client.{
  ExternalClient, on_connection, collect, status_of, send_status_with,
}

-- `sendStatus` inside a connect sequence, where it starts no other.
abbrev pub send_status_inside : InternalClientMessage → ExternalClient → ExternalClient
send_status_inside m c = (send_status_with (λ i k. k) m c).0

abbrev pub supports : ℕ → ExternalClient → ℕ → Bool
supports i c n = elim (find number_eq i c.connections) [
  | none ↦ false
  | some k ↦ is_module_supported k n
]

-- A status while the connection `i` is connecting.
unfoldable pub take_status : ℕ → InternalClientMessage → ExternalClient → ExternalClient
take_status i m c =
    let s = status_of m.message in
    if supports i c s.device.module_number
    then on_connection i (fill_error_aggregator s) c
    else send_status_inside m c

abbrev pub with_queue : List InternalClientMessage → ExternalClient → ExternalClient
with_queue ms c = record c { to_external = ms }

-- The first loop: up to a disconnect message.
unfoldable pub drain_queue : ℕ → List InternalClientMessage → ExternalClient → ExternalClient
drain_queue i [] c = with_queue [] c
drain_queue i (m ∷ ms) c =
    if m.disconnected
    then with_queue (m ∷ ms) c
    else drain_queue i ms (take_status i m (with_queue ms c))

-- A round of the second loop, with the devices that are waited for.
unfoldable pub take_forced :
    ℕ → List DeviceIdentification → ExternalClient → ExternalClient × List DeviceIdentification
take_forced i ds c = elim c.to_external [
  | [] ↦ (c, ds)
  | m ∷ ms ↦
      let s = status_of m.message in
      let popped = with_queue ms c in
      if supports i c s.device.module_number
      then (if any_same s.device ds
          then (on_connection i (fill_error_aggregator s) popped, erase_device s.device ds)
          else (with_queue (ms ++ m ∷ []) c, ds))
      else (send_status_inside m popped, ds)
]

unfoldable pub wait_for_forced :
    ℕ
    → List (List InternalClientMessage)
    → List DeviceIdentification
    → ExternalClient
    → ExternalClient × List DeviceIdentification
wait_for_forced i rounds [] c = (c, [])
wait_for_forced i [] (d ∷ ds) c = (c, d ∷ ds)
wait_for_forced i (arrived ∷ rounds) (d ∷ ds) c =
    let (taken, left) = take_forced i (d ∷ ds) (with_queue (c.to_external ++ arrived) c) in
    wait_for_forced i rounds left taken

-- A round of `drainQueueDuringConnect`: what arrives, and whether the attempt has ended before the
-- wait and after it.
pub record Round : Type 0 where
  pub arrived : List InternalClientMessage
  pub done_before : Bool
  pub done_after : Bool

-- What a round takes after its wait, and whether there is another.
unfoldable pub drain_round : ℕ → Bool → ExternalClient → ExternalClient × Bool
drain_round i done c = elim c.to_external [
  | [] ↦ (c, true)
  | m ∷ ms ↦
      if done || m.disconnected then (c, false) else (take_status i m (with_queue ms c), true)
]

unfoldable pub drain_queue_during_connect : ℕ → List Round → ExternalClient → ExternalClient
drain_queue_during_connect i [] c = c
drain_queue_during_connect i (r ∷ rs) c =
    let arrived = with_queue (c.to_external ++ r.arrived) c in
    let (taken, again) = drain_round i r.done_after arrived in
    let rest = drain_queue_during_connect i rs taken in
    if r.done_before then arrived else if again then rest else taken

-- What a connect sequence meets: the session id, the rounds of its loops, and whether the ioContext
-- is stopped at its end.
pub record Attempt : Type 0 where
  pub session_id : String
  pub waiting : List (List InternalClientMessage)
  pub connecting : List Round
  pub stopped : Bool

-- The part of `startExternalConnectSequence` before the connection is initialized, and the devices.
unfoldable pub prepare_connect :
    ℕ → Attempt → ExternalConnection → ExternalClient → ExternalClient × List DeviceIdentification
prepare_connect i t k c =
    let inside = record c { inside_connect_sequence = true } in
    let drained = drain_queue i inside.to_external inside in
    let devices = get_all_connected_devices k.modules drained.modules in
    let aggregators : Dict ℕ ErrorAggregator = elim (find number_eq i drained.connections) [
      | none ↦ k.error_aggregators
      | some drained_connection ↦ drained_connection.error_aggregators
    ] in
    let (forced, modules) = force_aggregation_on_all_devices devices aggregators drained.modules in
    let (waited, left) =
      wait_for_forced i t.waiting forced (record drained { modules = modules }) in
    (on_connection i fill_error_aggregator_with_not_acked_statuses waited, devices)

-- A timer that runs is cancelled by the next one, which calls its handler.
abbrev pub start_timer : ℕ → ExternalClient → ExternalClient
start_timer i c = record c {
  timer = some i;
  reconnect_queue = elim c.timer [
    | none ↦ c.reconnect_queue
    | some j ↦ c.reconnect_queue ++ (j, true) ∷ []
  ];
}

abbrev pub expire_timer : ExternalClient → ExternalClient
expire_timer c = elim c.timer [
  | none ↦ c
  | some j ↦ record c { timer = none; reconnect_queue = c.reconnect_queue ++ (j, true) ∷ [] }
]

-- The statuses that are drained while the connection is initialized are taken before its messages.
unfoldable pub finish_connect :
    ℕ → Attempt → List DeviceIdentification → ExternalClient → ExternalClient
finish_connect i t devices c =
    let drained = drain_queue_during_connect i t.connecting c in
    elim (find number_eq i drained.connections) [
      | none ↦ record drained { inside_connect_sequence = false }
      | some k ↦
          let (tried, rc) = initialize_connection t.session_id c.company c.vehicle_name devices k in
          let stored = record (collect i tried drained) { inside_connect_sequence = false } in
          if is_ok rc || t.stopped then stored else start_timer i stored
    ]

unfoldable pub start_external_connect_sequence : Attempt → ℕ → ExternalClient → ExternalClient
start_external_connect_sequence t i c = elim (find number_eq i c.connections) [
  | none ↦ c
  | some k ↦
      let (prepared, devices) = prepare_connect i t k c in finish_connect i t devices prepared
]

unfoldable pub send_status :
    Attempt → InternalClientMessage → ExternalClient → ExternalClient × Bool
send_status t = send_status_with (start_external_connect_sequence t)

-- The first half of a round of `handleAggregatedMessages`.
unfoldable pub reconnect_round : Attempt → ExternalClient → ExternalClient
reconnect_round t c = elim c.reconnect_queue [
  | [] ↦ c
  | (i, again) ∷ items ↦
      let ended = on_connection i (deinitialize_connection false) c in
      let handled =
        if again
        then start_external_connect_sequence t i ended
        else on_connection i (set_state not_initialized) ended in
      record handled { reconnect_queue = rest handled.reconnect_queue }
]

-- The second half.
unfoldable pub queue_round : Attempt → List InternalClientMessage → ExternalClient → ExternalClient
queue_round t arrived c = elim (c.to_external ++ arrived) [
  | [] ↦ c
  | m ∷ ms ↦ (send_status t m (with_queue ms c)).0
]

unfoldable pub handle_aggregated_messages :
    Attempt → Attempt → List InternalClientMessage → ExternalClient → ExternalClient
handle_aggregated_messages t u arrived c = queue_round u arrived (reconnect_round t c)
