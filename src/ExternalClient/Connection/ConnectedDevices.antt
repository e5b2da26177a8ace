-- ===== src/ExternalClient/Connection/ConnectedDevices.antt =====
-- The devices that an ExternalConnection connects: `getAllConnectedDevices` and
-- `forceAggregationOnAllDevices`.
pub mod Reconnecting
pub mod Losing
use module_gateway.Common.{ℕ, true, false, List, [], ◌∷◌, ◌++◌, none, some}
use module_gateway.Common.Dict.{Dict, find, modify}
use module_gateway.Common.Dict.Numbers.{number_eq}
use module_gateway.Structures.Buffer.{empty_buffer}
use module_gateway.Structures.ReturnCode.{is_ok}
use module_gateway.Structures.Device.{DeviceIdentification}
use module_gateway.StatusAggregator.{force_aggregation_on_device, get_unique_devices}
use module_gateway.ModuleHandler.Dispatch.{Module}
use module_gateway.ExternalClient.ErrorAggregator.{get_last_status}
use module_gateway.ExternalClient.Connection.{ErrorAggregator}

unfoldable pub get_all_connected_devices : List ℕ → Dict ℕ Module → List DeviceIdentification
get_all_connected_devices [] ms = []
get_all_connected_devices (n ∷ ns) ms =
    let others = get_all_connected_devices ns ms in
    elim (find number_eq n ms) [
      | none ↦ others
      | some m ↦ (get_unique_devices m.library m.aggregator).0 ++ others
    ]

-- `forceAggregationOnAllDevices`: a device that the error aggregator has a status of is left out. The
-- devices come from `getAllConnectedDevices`: their modules stand in the settings, for which `init` has
-- made error aggregators, and have status aggregators. So `at`, which throws for a missing module, is
-- called for those that are there only; a module without an error aggregator is not met.
unfoldable pub force_aggregation_on_all_devices :
    List DeviceIdentification
    → Dict ℕ ErrorAggregator
    → Dict ℕ Module
    → List DeviceIdentification × Dict ℕ Module
force_aggregation_on_all_devices [] es ms = ([], ms)
force_aggregation_on_all_devices (d ∷ ds) es ms = elim (find number_eq d.module_number es) [
  | none ↦ force_aggregation_on_all_devices ds es ms
  | some a ↦ elim (is_ok (get_last_status a.library a.devices empty_buffer d).1) [
    | true ↦ force_aggregation_on_all_devices ds es ms
    | false ↦
        let forced =
          modify number_eq d.module_number
            (λ m. record m {
              aggregator = (force_aggregation_on_device m.library m.aggregator d).0;
            })
            ms in
        let (more, ms') = force_aggregation_on_all_devices ds es forced in (d ∷ more, ms')
  ]
]
