-- ===== src/ExternalClient/Client/Draining.antt =====
-- What becomes of the statuses that wait when a connect sequence starts.
use mathlib.Core.Option
use module_gateway.Common.{
  ℕ, Bool, true, false, List, [], ◌∷◌, some, ◌==◌, if◌then◌else◌, ◌≡◌, refl, ◌∙◌, arith,
  Option-cases, Bool-cases, inl, inr,
}
use module_gateway.Common.Dict.{Dict, find, contains}
use module_gateway.Common.Dict.Laws.{find-modify, contains-modify}
use module_gateway.Common.Dict.Numbers.{number_eq}
use module_gateway.Structures.Buffer.{empty_buffer}
use module_gateway.ExternalClient.Messages.{StatusState}
use module_gateway.Structures.Messages.{DeviceStatus, InternalClientMessage}
use module_gateway.ExternalClient.SentMessages.{NotAckedStatus}
use module_gateway.ExternalClient.Connection.{
  ErrorAggregator, ExternalConnection, aggregate, aggregate_all, fill_error_aggregator,
  fill_error_aggregator_with_not_acked_statuses, is_module_supported, send_status,
}
use module_gateway.ExternalClient.Client.{
  ExternalClient, status_of, send_status_with, send_status_to,
}
use module_gateway.ExternalClient.Client.ConnectSequence.{
  supports, take_status, with_queue, drain_queue,
}

-- The queue from its first disconnect message on.
abbrev pub from_disconnect : List InternalClientMessage → List InternalClientMessage
from_disconnect [] = []
from_disconnect (m ∷ ms) = if m.disconnected then m ∷ ms else from_disconnect ms

abbrev pub module_number_of : InternalClientMessage → ℕ
module_number_of m = (status_of m.message).device.module_number

-- A connection that takes the statuses before the first disconnect message that are of its modules.
unfoldable pub filled_before :
    (ℕ → Bool) → List InternalClientMessage → ExternalConnection → ExternalConnection
filled_before supported [] k = k
filled_before supported (m ∷ ms) k =
    if m.disconnected
    then k
    else filled_before supported ms (
        if supported (module_number_of m) then fill_error_aggregator (status_of m.message) k else k)

-- externalConnectionMap_ leads to the connection `i` only for modules that it supports.
abbrev pub IsRouted : ℕ → ExternalClient → Type 0
IsRouted i c = (n : ℕ) → find number_eq n c.connection_map ≡ some i → supports i c n ≡ true

contains-aggregate :
    (n : ℕ) (s : DeviceStatus) (e : Dict ℕ ErrorAggregator)
    → contains number_eq n (aggregate s e) ≡ contains number_eq n e
unfolding aggregate
contains-aggregate n s e = contains-modify number_eq n s.device.module_number _ e

contains-aggregate_all :
    (n : ℕ) (ss : List NotAckedStatus) (e : Dict ℕ ErrorAggregator)
    → contains number_eq n (aggregate_all ss e) ≡ contains number_eq n e
unfolding aggregate_all
contains-aggregate_all n [] e = refl
contains-aggregate_all n (s ∷ ss) e =
    contains-aggregate_all n ss (aggregate s.status e) ∙ contains-aggregate n s.status e

pub is_module_supported-fill :
    (s : DeviceStatus) (k : ExternalConnection) (n : ℕ)
    → is_module_supported (fill_error_aggregator s k) n ≡ is_module_supported k n
unfolding is_module_supported fill_error_aggregator fill_error_aggregator_with_not_acked_statuses
is_module_supported-fill s k n =
    let all = aggregate_all k.sent_messages.not_acked_statuses k.error_aggregators in
    ground (
      arith,
      contains-aggregate_all n k.sent_messages.not_acked_statuses k.error_aggregators,
      contains-aggregate n s all,
    )

send_status_to-other :
    (i j : ℕ) (k : ExternalConnection) (m : InternalClientMessage) (c : ExternalClient)
    → (j == i) ≡ false
    → find number_eq i (send_status_to (λ x d. d) j k m c).0.connections
      ≡ find number_eq i c.connections
unfolding send_status_to
send_status_to-other i j k m c other =
    let s = status_of m.message in
    ground (
      arith,
      find-modify number_eq i j (fill_error_aggregator s) c.connections,
      find-modify number_eq i j (send_status s StatusState.disconnect empty_buffer) c.connections,
      find-modify number_eq i j (send_status s StatusState.running empty_buffer) c.connections,
    )

-- A status for another connection leaves the connection `i` alone, and one for it is filled in.
pub find-take_status :
    (i : ℕ) (m : InternalClientMessage) (c : ExternalClient)
    → IsRouted i c
    → find number_eq i (take_status i m c).connections ≡ (
        if supports i c (module_number_of m)
        then Option.map
            (fill_error_aggregator (status_of m.message))
            (find number_eq i c.connections)
        else find number_eq i c.connections)
unfolding take_status send_status_with
find-take_status i m c routed = elim (Bool-cases (supports i c (module_number_of m))) [
  | inl p ↦ ground (
    arith,
    p,
    find-modify number_eq i i (fill_error_aggregator (status_of m.message)) c.connections,
  )
  | inr p ↦ elim (Option-cases (find number_eq (module_number_of m) c.connection_map)) [
    | inl e ↦ ground (arith, p, e)
    | inr (j, e) ↦ elim (Bool-cases (j == i)) [
      | inl same ↦
          let equal : j ≡ i = ground (arith, same) in
          absurd (ground (arith, p, routed (module_number_of m) (rw equal at e)))
      | inr other ↦ elim (Option-cases (find number_eq j c.connections)) [
        | inl q ↦ ground (arith, p, e, q)
        | inr (k, q) ↦ ground (arith, p, e, q, send_status_to-other i j k m c other)
      ]
    ]
  ]
]

take_status_map_lem :
    (i : ℕ) (m : InternalClientMessage) (c : ExternalClient)
    → ((take_status i m c).connection_map ≡ c.connection_map)
      × ((take_status i m c).to_external ≡ c.to_external)
unfolding take_status send_status_with send_status_to
take_status_map_lem i m c = (ground arith, ground arith)

supports-take_status :
    (i n : ℕ) (m : InternalClientMessage) (c : ExternalClient)
    → IsRouted i c
    → supports i (take_status i m c) n ≡ supports i c n
supports-take_status i n m c routed = elim (Option-cases (find number_eq i c.connections)) [
  | inl e ↦ ground (arith, e, find-take_status i m c routed)
  | inr (k, e) ↦
      ground (
        arith,
        e,
        find-take_status i m c routed,
        is_module_supported-fill (status_of m.message) k n,
      )
]

take_status-IsRouted :
    (i : ℕ) (m : InternalClientMessage) (c : ExternalClient)
    → IsRouted i c
    → IsRouted i (take_status i m c)
take_status-IsRouted i m c routed n e =
    let same = (take_status_map_lem i m c).0 in
    supports-take_status i n m c routed ∙ routed n (rw same at e)

drain_queue_lem :
    (i : ℕ) (supported : ℕ → Bool) (ms : List InternalClientMessage) (c : ExternalClient)
    → IsRouted i c
    → ((n : ℕ) → supports i c n ≡ supported n)
    → (find number_eq i (drain_queue i ms c).connections
        ≡ Option.map (filled_before supported ms) (find number_eq i c.connections))
      × ((drain_queue i ms c).to_external ≡ from_disconnect ms)
unfolding drain_queue filled_before
drain_queue_lem i supported [] c routed s = (
  elim (Option-cases (find number_eq i c.connections)) [
    | inl e ↦ ground (arith, e)
    | inr (k, e) ↦ ground (arith, e)
  ],
  refl,
)
drain_queue_lem i supported (m ∷ ms) c routed s =
    let c' = with_queue ms c in
    let now = find-take_status i m c' routed in
    let later =
      drain_queue_lem i supported ms (take_status i m c') (take_status-IsRouted i m c' routed)
        (λ n. supports-take_status i n m c' routed ∙ s n) in
    (
      elim (Option-cases (find number_eq i c.connections)) [
        | inl e ↦ ground (arith, e, now, later.0)
        | inr (k, e) ↦ ground (arith, e, now, later.0, s (module_number_of m))
      ],
      ground (arith, later.1),
    )

-- When the modules that lead to a connection are ones that it supports, the loop that starts its
-- connect sequence leaves the queue from its first disconnect message on, and the connection takes
-- every status before that which is of its modules, in order, and no other.
pub drain_queue-fills :
    (i : ℕ) (ms : List InternalClientMessage) (c : ExternalClient)
    → IsRouted i c
    → (find number_eq i (drain_queue i ms c).connections
        ≡ Option.map (filled_before (supports i c) ms) (find number_eq i c.connections))
      × ((drain_queue i ms c).to_external ≡ from_disconnect ms)
drain_queue-fills i ms c routed = drain_queue_lem i (supports i c) ms c routed (λ n. refl)
