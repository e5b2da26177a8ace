-- ===== src/ExternalClient/ErrorAggregator/Errors.antt =====
-- What the error aggregator answers after a run of statuses.
use module_gateway.Common.{
  Bool, true, false, List, [], ◌∷◌, none, some, if◌then◌else◌, ◌≡◌, refl, arith,
}
use module_gateway.Common.Dict.{find, contains, try_emplace}
use module_gateway.Common.Dict.Laws.{
  contains_iff_find, find-modify, find-try_emplace, find-map_values,
}
use module_gateway.Structures.Buffer.{Buffer, empty_buffer, is_allocated}
use module_gateway.Structures.ReturnCode.{
  ok, device_not_registered, no_message_available, is_ok, is_not_ok,
}
use module_gateway.Structures.Device.{DeviceIdentification, device_eq, same_device}
use module_gateway.Structures.Module.{ModuleLibraryHandler}
use module_gateway.ExternalClient.ErrorAggregator.{
  DeviceState, Devices, empty_state, take_status, add_status_to_error_aggregator, get_last_status,
  get_error, clear_error_aggregator,
}

module _ (m : ModuleLibraryHandler) where
  -- The statuses of some devices, one after another.
  unfoldable pub add_statuses : List (DeviceIdentification × Buffer) → Devices → Devices
  add_statuses [] devices = devices
  add_statuses ((d, status) ∷ ss) devices =
      add_statuses ss (add_status_to_error_aggregator m devices status d).0

  -- The error of a device: each of its statuses is aggregated to what came before, and an
  -- aggregation that fails leaves that.
  unfoldable pub aggregated_error :
      DeviceIdentification → List (DeviceIdentification × Buffer) → Buffer → Buffer
  aggregated_error d [] error = error
  aggregated_error d ((e, status) ∷ ss) error =
      let (rc, next) = m.aggregate_error error status e.device_type in
      aggregated_error d ss (if same_device e d then (if is_ok rc then next else error) else error)

  abbrev pub last_status_of :
      DeviceIdentification → List (DeviceIdentification × Buffer) → Buffer → Buffer
  last_status_of d [] last = last
  last_status_of d ((e, status) ∷ ss) last =
      last_status_of d ss (if same_device e d then status else last)

  abbrev pub has_status : DeviceIdentification → List (DeviceIdentification × Buffer) → Bool
  has_status d [] = false
  has_status d ((e, status) ∷ ss) = if same_device e d then true else has_status d ss

  -- Every device's type is one that the module's library does not refuse.
  abbrev pub Supported : List (DeviceIdentification × Buffer) → Type 0
  Supported [] = Unit
  Supported ((e, status) ∷ ss) =
      (is_not_ok (m.is_device_type_supported e.device_type) ≡ false) × Supported ss

  pub find-add_status :
      (d e : DeviceIdentification) (status : Buffer) (devices : Devices)
      → is_not_ok (m.is_device_type_supported e.device_type) ≡ false
      → find device_eq d (add_status_to_error_aggregator m devices status e).0 ≡ (
          if same_device e d
          then some
              (take_status m status e.device_type
                (elim (find device_eq d devices) [ none ↦ empty_state | some s ↦ s ])).0
          else find device_eq d devices)
  unfolding add_status_to_error_aggregator
  find-add_status d e status devices h = ground (
    arith,
    find-modify device_eq d e (λ s. (take_status m status e.device_type s).0)
        (try_emplace device_eq e empty_state devices),
    find-try_emplace device_eq d e empty_state devices,
  )

  abbrev folded :
      DeviceIdentification → List (DeviceIdentification × Buffer) → DeviceState → DeviceState
  folded d ss s = record {
    error_message = aggregated_error d ss s.error_message;
    last_status = last_status_of d ss s.last_status;
  }

  no_status :
      (d : DeviceIdentification) (ss : List (DeviceIdentification × Buffer)) (s : DeviceState)
      → has_status d ss ≡ false
      → folded d ss s ≡ s
  unfolding aggregated_error
  no_status d [] s h = refl
  no_status d ((e, status) ∷ ss) s h = ground (arith, no_status d ss s)

  find-add_statuses :
      (d : DeviceIdentification) (ss : List (DeviceIdentification × Buffer)) (devices : Devices)
      → Supported ss
      → find device_eq d (add_statuses ss devices) ≡ (
          if has_status d ss
          then some
              (folded d ss (elim (find device_eq d devices) [ none ↦ empty_state | some s ↦ s ]))
          else find device_eq d devices)
  unfolding add_statuses aggregated_error take_status
  find-add_statuses d [] devices v = refl
  find-add_statuses d ((e, status) ∷ ss) devices v =
      let later =
        find-add_statuses d ss (add_status_to_error_aggregator m devices status e).0 v.1 in
      let s : DeviceState = elim (find device_eq d devices) [ none ↦ empty_state | some s ↦ s ] in
      let now = find-add_status d e status devices v.0 in
      ground (arith, later, now, no_status d ss (take_status m status e.device_type s).0)

  -- Statuses of devices whose types are supported arrive one after another, from a cleared start.
  -- For a device that had one, the last status is the one that arrived last, and its error is what
  -- its own statuses aggregate to, in order, as far as the library succeeds; where that is not
  -- allocated there is no message. A device without a status is not registered.
  pub get_error-add_statuses :
      (d : DeviceIdentification) (ss : List (DeviceIdentification × Buffer)) (buffer : Buffer)
      → Supported ss
      → let devices = add_statuses ss [] in
        let error = aggregated_error d ss empty_buffer in
        (get_last_status m devices buffer d ≡ (
          if has_status d ss
          then (last_status_of d ss empty_buffer, ok)
          else (buffer, device_not_registered)))
        × (get_error m devices buffer d ≡ (
            if has_status d ss
            then (if is_allocated error then (error, ok) else (buffer, no_message_available))
            else (buffer, device_not_registered)))
  unfolding get_last_status get_error find
  get_error-add_statuses d ss buffer v =
      let found = find-add_statuses d ss [] v in (ground arith, ground arith)

  -- After a clear, the same devices are registered, and each has an empty status and no error.
  pub get_error-clear :
      (d : DeviceIdentification) (devices : Devices) (buffer : Buffer)
      → let cleared = (clear_error_aggregator m devices).0 in
        let known = contains device_eq d devices in
        (get_last_status m cleared buffer d
          ≡ (if known then (empty_buffer, ok) else (buffer, device_not_registered)))
        × ((get_error m cleared buffer d).1
            ≡ (if known then no_message_available else device_not_registered))
  unfolding get_last_status get_error clear_error_aggregator is_allocated
  get_error-clear d devices buffer =
      let found = find-map_values device_eq d (λ s. empty_state) devices in
      let known = contains_iff_find device_eq d devices in (ground arith, ground arith)
