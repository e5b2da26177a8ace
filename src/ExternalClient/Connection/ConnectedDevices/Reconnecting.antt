-- ===== src/ExternalClient/Connection/ConnectedDevices/Reconnecting.antt =====
-- The devices of a connection that is made again after its error aggregators were cleared.
use module_gateway.Common.{
  ℕ, ◌+◌, ◌%◌, ◌^◌, Bool, true, false, List, [], ◌∷◌, ◌++◌, none, some, ◌≡◌, refl, All, ap, ◌∙◌,
  arith, Option-cases, inl, inr,
}
use mathlib.Core.Option
use module_gateway.Common.Dict.{Dict, find, contains, map_values}
use module_gateway.Common.Dict.Laws.{find-map_values}
use module_gateway.Common.Dict.Numbers.{number_eq}
use module_gateway.Structures.Buffer.{empty_buffer}
use module_gateway.Structures.ReturnCode.{ok, no_message_available}
use module_gateway.Structures.Device.{DeviceIdentification, device_eq}
use module_gateway.Structures.Module.{ModuleLibraryHandler}
use module_gateway.ModuleHandler.Dispatch.{Module}
use module_gateway.ExternalClient.ErrorAggregator.{Devices, get_last_status, get_error}
use module_gateway.ExternalClient.ErrorAggregator.Errors.{get_error-clear}
use module_gateway.ExternalClient.Messages.{
  StatusState, status, create_device_status, create_external_client_status,
}
use module_gateway.ExternalClient.Connection.{
  mark_device, ErrorAggregator, ExternalConnection, next, clear_aggregator,
}
use module_gateway.ExternalClient.Connection.Sending.{send_status-sent, sent_state}
use module_gateway.ExternalClient.Connection.Sequence.{send_last_statuses}
use module_gateway.ExternalClient.Connection.ConnectedDevices.{force_aggregation_on_all_devices}

-- The error aggregator of the device's module has had a status of the device.
abbrev pub is_registered : Dict ℕ ErrorAggregator → DeviceIdentification → Bool
is_registered es d = elim (find number_eq d.module_number es) [
  | none ↦ false
  | some a ↦ contains device_eq d a.devices
]

get_error_none_lem :
    (m : ModuleLibraryHandler) (d : DeviceIdentification) (devices : Devices)
    → (get_error m devices empty_buffer d).1 ≡ no_message_available
    → get_error m devices empty_buffer d ≡ (empty_buffer, no_message_available)
unfolding get_error
get_error_none_lem m d devices h = ground (arith, h)

pub registered_lem :
    (es : Dict ℕ ErrorAggregator) (d : DeviceIdentification)
    → is_registered es d ≡ true
    → (a : ErrorAggregator) × (find number_eq d.module_number (map_values clear_aggregator es)
        ≡ some (clear_aggregator a))
      × (get_last_status a.library (clear_aggregator a).devices empty_buffer d ≡ (empty_buffer, ok))
      × (get_error a.library (clear_aggregator a).devices empty_buffer d
          ≡ (empty_buffer, no_message_available))
registered_lem es d h = elim (Option-cases (find number_eq d.module_number es)) [
  | inl p ↦ absurd (ground arith)
  | inr (a, p) ↦
      let cleared = get_error-clear a.library d a.devices empty_buffer in
      let known : contains device_eq d a.devices ≡ true = ground arith in
      (
        a,
        find-map_values number_eq d.module_number clear_aggregator es
            ∙ ap (Option.map clear_aggregator) p,
        ground (arith, cleared.0, known),
        get_error_none_lem a.library d (clear_aggregator a).devices
            (ground (arith, cleared.1, known)),
      )
]

-- Of devices that had a status before the error aggregators were cleared, and none since, no
-- aggregation is forced when the connection is made again.
pub force_aggregation_on_all_devices-cleared :
    (ds : List DeviceIdentification) (es : Dict ℕ ErrorAggregator) (ms : Dict ℕ Module)
    → All (λ d. is_registered es d ≡ true) ds
    → force_aggregation_on_all_devices ds (map_values clear_aggregator es) ms ≡ ([], ms)
unfolding force_aggregation_on_all_devices
force_aggregation_on_all_devices-cleared [] es ms h = refl
force_aggregation_on_all_devices-cleared (d ∷ ds) es ms h =
    let (a, found, last, error) = registered_lem es d h.0 in
    ground (arith, found, last, force_aggregation_on_all_devices-cleared ds es ms h.1)

-- When the connection is then made again, the status that is sent of such a device as connecting is
-- empty and without an error.
pub send_last_statuses-cleared :
    (d : DeviceIdentification) (c : ExternalConnection)
    → is_registered c.error_aggregators d ≡ true
    → next c.channel.accepts ≡ true
    → let cleared = record c {
      error_aggregators = map_values clear_aggregator c.error_aggregators;
    } in
      let result = send_last_statuses (d ∷ []) cleared in
      let counter = (c.client_message_counter + 1) % 2 ^ 32 in
      let empty_status = create_device_status d empty_buffer in
      (result.0.channel.outbox
        ≡ c.channel.outbox
          ++ status (
              create_external_client_status c.session_id StatusState.connecting counter empty_status
                empty_buffer)
            ∷ [])
      × (result.1 ≡ ok)
unfolding send_last_statuses sent_state mark_device
send_last_statuses-cleared d c h taken =
    let (a, found, last, error) = registered_lem c.error_aggregators d h in
    let cleared = record c {
      error_aggregators = map_values clear_aggregator c.error_aggregators;
    } in
    let s = create_device_status d empty_buffer in
    let sent =
      send_status-sent s StatusState.connecting empty_buffer (clear_aggregator a) cleared found
        taken in
    (ground (arith, found, last, error, sent.0), ground (arith, found, last, error))
