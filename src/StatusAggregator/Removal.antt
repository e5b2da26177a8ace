-- ===== src/StatusAggregator/Removal.antt =====
-- `remove_device` empties a device's queue at once and posts a handler that erases the device
-- later.
use module_gateway.Common.{
  ℕ, true, false, List, [], ◌∷◌, ◌≡◌, refl, arith, Option-cases, inl, inr, length, ◌⊎◌,
}
use module_gateway.Common.Dict.{Dict, find, contains, modify, erase}
use module_gateway.Common.Dict.Laws.{
  contains_iff_find, contains-modify, contains-erase_self, modify-Distinct, find-modify,
}
use module_gateway.Structures.Buffer.{Buffer}
use module_gateway.Structures.ReturnCode.{count, ok, device_not_registered, is_ok}
use module_gateway.Structures.Outcome.{thrown, out_of_range}
use module_gateway.Structures.Device.{DeviceIdentification, device_eq}
use module_gateway.Structures.Module.{ModuleLibraryHandler}
use module_gateway.Structures.DeviceState.{DeviceState}
use module_gateway.StatusAggregator.{
  StatusAggregator, messages_of, is_device_valid, clear_device, remove_device, run_posted,
  add_status_to_aggregator, receive_status, get_command, clear_messages, pop_all,
}
use module_gateway.StatusAggregator.Consistent.{Consistent}

pop_all-nil : (q : List Buffer) → pop_all q ≡ []
unfolding pop_all
pop_all-nil [] = refl
pop_all-nil (b ∷ q) = pop_all-nil q

pub messages_of-clear_messages :
    (d : DeviceIdentification) (devices : Dict DeviceIdentification DeviceState)
    → messages_of d (modify device_eq d clear_messages devices) ≡ []
unfolding messages_of clear_messages
messages_of-clear_messages d devices = elim (Option-cases (find device_eq d devices)) [
  | inl e ↦ ground (arith, find-modify device_eq d d clear_messages devices, device_eq.same_refl d)
  | inr (s, e) ↦ ground (
    arith,
    find-modify device_eq d d clear_messages devices,
    device_eq.same_refl d,
    pop_all-nil s.aggregated_messages,
  )
]

module _ (m : ModuleLibraryHandler) (a : StatusAggregator) (d : DeviceIdentification) where
  valid_contains : is_ok (is_device_valid m a d) ≡ true → contains device_eq d a.devices ≡ true
  unfolding is_device_valid
  valid_contains v = ground arith

  -- Removing a valid device empties its queue, and once the posted handlers have run the device
  -- is not registered; an invalid device is refused, and nothing changes.
  pub remove_device_lem :
      Consistent a
      → a.posted ≡ []
      → let removed = remove_device m a d in
        ((is_ok (is_device_valid m a d) ≡ true)
          × (removed.1 ≡ ok)
          × (messages_of d removed.0.devices ≡ [])
          × (contains device_eq d (run_posted m removed.0).devices ≡ false))
        ⊎ ((is_ok (is_device_valid m a d) ≡ false) × (removed ≡ (a, device_not_registered)))
  unfolding remove_device clear_device is_device_valid run_posted
  remove_device_lem v p = ground (
    arith,
    contains_iff_find device_eq d a.devices,
    messages_of-clear_messages d a.devices,
    contains-erase_self device_eq d (modify device_eq d clear_messages a.devices),
    modify-Distinct device_eq d clear_messages a.devices v.distinct,
  )

  -- A device that sends a status after `remove_device` and before the posted handler runs is
  -- still accepted, since it is still in the map; then the handler erases it with that status, and
  -- the `get_command` that answers the status throws.
  pub readded_is_erased :
      (now : ℕ) (status command : Buffer)
      → Consistent a
      → a.posted ≡ []
      → is_ok (is_device_valid m a d) ≡ true
      → let readded = add_status_to_aggregator m now (remove_device m a d).0 status d in
        let later = run_posted m readded.0 in
        ((n : ℕ) × (readded.1 ≡ count n))
        × (contains device_eq d later.devices ≡ false)
        × (get_command m later status d command ≡ thrown out_of_range)
  unfolding remove_device clear_device is_device_valid run_posted add_status_to_aggregator
      get_command
  readded_is_erased now status command v p valid =
      let received = receive_status m now status d.device_type in
      let cleared = modify device_eq d clear_messages a.devices in
      let updated = modify device_eq d received cleared in
      let still = contains-modify device_eq d d clear_messages a.devices in
      let distinct =
        modify-Distinct device_eq d received cleared
          (modify-Distinct device_eq d clear_messages a.devices v.distinct) in
      let gone = contains-erase_self device_eq d updated distinct in
      let unknown = contains_iff_find device_eq d (erase device_eq d updated) in
      ((length (messages_of d updated), ground arith), ground arith, ground arith)
