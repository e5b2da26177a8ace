-- ===== src/ExternalClient/Connection/Statuses.antt =====
-- What becomes of the statuses that the server has not acknowledged.
use module_gateway.Common.{
  ℕ, false, List, [], ◌∷◌, ◌==◌, map, if◌then◌else◌, ◌≡◌, refl, ap, ◌∙◌, arith, Option-cases, inl,
  inr,
}
use mathlib.Core.Option
use module_gateway.Common.Dict.{Dict, find}
use module_gateway.Common.Dict.Laws.{find-modify}
use module_gateway.Common.Dict.Numbers.{number_eq}
use module_gateway.Structures.Buffer.{Buffer}
use module_gateway.Structures.Device.{DeviceIdentification}
use module_gateway.Structures.Messages.{DeviceStatus}
use module_gateway.ModuleHandler.{status_buffer}
use module_gateway.ExternalClient.ErrorAggregator.{add_status_to_error_aggregator}
use module_gateway.ExternalClient.ErrorAggregator.Errors.{add_statuses}
use module_gateway.ExternalClient.SentMessages.{
  NotAckedStatus, cancel_timer, clear_all, clear_all_timers,
}
use module_gateway.ExternalClient.Connection.{
  ErrorAggregator, ExternalConnection, aggregate, aggregate_all, not_initialized,
  fill_error_aggregator_with_not_acked_statuses, deinitialize_connection,
}

-- The statuses of the module `n`, each with its device, as the module's error aggregator takes them.
unfoldable pub statuses_of : ℕ → List NotAckedStatus → List (DeviceIdentification × Buffer)
statuses_of n [] = []
statuses_of n (s ∷ ss) =
    let others = statuses_of n ss in
    let d = s.status.device in
    if d.module_number == n then (d, status_buffer s.status.status_data) ∷ others else others

abbrev pub with_statuses : List (DeviceIdentification × Buffer) → ErrorAggregator → ErrorAggregator
with_statuses ss a = record a { devices = add_statuses a.library ss a.devices }

abbrev pub with_status : DeviceStatus → ErrorAggregator → ErrorAggregator
with_status s a = record a {
  devices =
      (add_status_to_error_aggregator a.library a.devices (status_buffer s.status_data) s.device).0;
}

pub find-aggregate :
    (n : ℕ) (s : DeviceStatus) (e : Dict ℕ ErrorAggregator)
    → find number_eq n (aggregate s e) ≡ (
        if s.device.module_number == n
        then Option.map (with_status s) (find number_eq n e)
        else find number_eq n e)
unfolding aggregate
find-aggregate n s e = find-modify number_eq n s.device.module_number (with_status s) e

pub find-aggregate_all :
    (n : ℕ) (ss : List NotAckedStatus) (e : Dict ℕ ErrorAggregator)
    → find number_eq n (aggregate_all ss e)
      ≡ Option.map (with_statuses (statuses_of n ss)) (find number_eq n e)
unfolding aggregate_all statuses_of add_statuses
find-aggregate_all n [] e = elim (Option-cases (find number_eq n e)) [
  | inl p ↦ ground arith
  | inr (a, p) ↦ ground arith
]
find-aggregate_all n (s ∷ ss) e =
    let later = find-aggregate_all n ss (aggregate s.status e) in
    let now = find-aggregate n s.status e in
    elim (Option-cases (find number_eq n e)) [ inl p ↦ ground arith | inr (a, p) ↦ ground arith ]

aggregate_all-map :
    (ss : List NotAckedStatus) (e : Dict ℕ ErrorAggregator)
    → aggregate_all (map cancel_timer ss) e ≡ aggregate_all ss e
unfolding aggregate_all
aggregate_all-map [] e = refl
aggregate_all-map (s ∷ ss) e = aggregate_all-map ss (aggregate s.status e)

-- Ending a connection that is to be made again loses no status: the error aggregator of each module
-- takes, after what it had, the module's statuses that were not acknowledged, in the order in which
-- they were sent. No status waits any more, and no device is taken off the connected ones.
pub deinitialize_connection-keeps :
    (n : ℕ) (c : ExternalConnection)
    → let ended = deinitialize_connection false c in
      (find number_eq n ended.error_aggregators
        ≡ Option.map
            (with_statuses (statuses_of n c.sent_messages.not_acked_statuses))
            (find number_eq n c.error_aggregators))
      × (ended.sent_messages.not_acked_statuses ≡ [])
      × (ended.sent_messages.connected_devices ≡ c.sent_messages.connected_devices)
      × (ended.state ≡ not_initialized)
unfolding deinitialize_connection fill_error_aggregator_with_not_acked_statuses clear_all
    clear_all_timers
deinitialize_connection-keeps n c = (
  ap (find number_eq n) (aggregate_all-map c.sent_messages.not_acked_statuses c.error_aggregators)
      ∙ find-aggregate_all n c.sent_messages.not_acked_statuses c.error_aggregators,
  refl,
  refl,
  refl,
)
