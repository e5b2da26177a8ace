-- ===== src/ExternalClient/ErrorAggregator.antt =====
-- source/bringauto/external_client/ErrorAggregator.cpp: per device, the last status and what the
-- module's library made of the statuses that could not be sent.
pub mod Errors
use module_gateway.Common.{ℕ, Bool, true, false, List, [], Option, none, some, if◌then◌else◌}
use module_gateway.Common.Dict.{Dict, find, contains, modify, try_emplace, map_values}
use module_gateway.Structures.Buffer.{Buffer, empty_buffer, is_allocated}
use module_gateway.Structures.ReturnCode.{
  ReturnCode, ok, not_ok, device_not_supported, device_not_registered, no_message_available, is_ok,
  is_not_ok,
}
use module_gateway.Structures.Device.{DeviceIdentification, device_eq}
use module_gateway.Structures.Module.{ModuleLibraryHandler}

pub record DeviceState : Type 0 where
  pub error_message : Buffer
  pub last_status : Buffer

-- DeviceState {}
abbrev pub empty_state : DeviceState
empty_state = record { error_message = empty_buffer; last_status = empty_buffer }

-- devices_
abbrev pub Devices : Type 0
Devices = Dict DeviceIdentification DeviceState

module _ (m : ModuleLibraryHandler) where
  -- What is left of a device's state after a status: `currentError` changes only on success.
  unfoldable pub take_status : Buffer → ℕ → DeviceState → DeviceState × ReturnCode
  take_status status device_type s =
      let (rc, error_message) = m.aggregate_error s.error_message status device_type in
      if is_ok rc
      then (record { error_message = error_message; last_status = status }, ok)
      else (record s { last_status = status }, not_ok)

  -- devices_[device]
  unfoldable pub state_of : Devices → DeviceIdentification → DeviceState
  state_of devices d = elim (find device_eq d devices) [ none ↦ empty_state | some s ↦ s ]

  unfoldable pub add_status_to_error_aggregator :
      Devices → Buffer → DeviceIdentification → Devices × ReturnCode
  add_status_to_error_aggregator devices status d =
      if is_not_ok (m.is_device_type_supported d.device_type)
      then (devices, device_not_supported)
      else (let there = try_emplace device_eq d empty_state devices in
          (
            modify device_eq d (λ s. (take_status status d.device_type s).0) there,
            (take_status status d.device_type (state_of there d)).1,
          ))

  unfoldable pub get_last_status : Devices → Buffer → DeviceIdentification → Buffer × ReturnCode
  get_last_status devices buffer d = elim (find device_eq d devices) [
    | none ↦ (buffer, device_not_registered)
    | some s ↦ (s.last_status, ok)
  ]

  unfoldable pub get_error : Devices → Buffer → DeviceIdentification → Buffer × ReturnCode
  get_error devices buffer d = elim (find device_eq d devices) [
    | none ↦ (buffer, device_not_registered)
    | some s ↦
        if is_allocated s.error_message
        then (s.error_message, ok)
        else (buffer, no_message_available)
  ]

  unfoldable pub clear_error_aggregator : Devices → Devices × ReturnCode
  clear_error_aggregator devices = (map_values (λ s. empty_state) devices, ok)
