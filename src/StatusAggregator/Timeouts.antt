-- ===== src/StatusAggregator/Timeouts.antt =====
-- The timeout count of a device: each expiration of its timer adds one, a status sets it to zero.
use module_gateway.Common.{ℕ, suc, ◌+◌, Bool, if◌then◌else◌, true, false, none, some, ◌≡◌, arith}
use module_gateway.Common.Dict.{find, modify, try_emplace}
use module_gateway.Common.Dict.Laws.{find-modify, find-try_emplace, find-assign}
use module_gateway.Structures.Buffer.{Buffer}
use module_gateway.Structures.ReturnCode.{is_not_ok}
use module_gateway.Structures.Device.{DeviceIdentification, device_eq}
use module_gateway.Structures.Module.{ModuleLibraryHandler}
use module_gateway.Structures.ThreadTimer.{ends, expire, fires, rearm}
use module_gateway.StatusAggregator.{
  StatusAggregator, tick, timeouted_force_aggregation, force_aggregation_on_device, register_device,
  add_status_to_aggregator, get_device_timeout_count, push_status, expire_timer, rearm_timer,
}

-- Whether a device is registered and its timer armed, with its callback enabled.
abbrev pub timer_runs : StatusAggregator → DeviceIdentification → Bool
timer_runs a d = elim (find device_eq d a.devices) [
  | none ↦ false
  | some s ↦ if s.timer.ended then false else s.timer.waiting
]

module _ (m : ModuleLibraryHandler) where
  -- The timer of a device ends: its timeout count grows by one, the flag for the module handler is set,
  -- and the timer runs again.
  pub tick_counts :
      (now : ℕ) (a : StatusAggregator) (d : DeviceIdentification)
      → timer_runs a d ≡ true
      → (get_device_timeout_count (tick m now false a d) d ≡ get_device_timeout_count a d + 1)
        × ((tick m now false a d).timeouted_message_ready ≡ true)
        × (timer_runs (tick m now false a d) d ≡ true)
  unfolding tick timeouted_force_aggregation force_aggregation_on_device get_device_timeout_count
      fires ends expire rearm
  tick_counts now a d e =
      let emplaced = try_emplace device_eq d 0 a.device_timeouts in
      let expired = modify device_eq d expire_timer a.devices in
      let pushed = modify device_eq d push_status expired in
      ground (
        arith,
        find-modify device_eq d d suc emplaced,
        find-try_emplace device_eq d d 0 a.device_timeouts,
        find-modify device_eq d d expire_timer a.devices,
        find-modify device_eq d d push_status expired,
        find-modify device_eq d d (rearm_timer now) expired,
        find-modify device_eq d d (rearm_timer now) pushed,
        device_eq.same_refl d,
      )

  -- A status from a device whose type the module does not refuse sets its timeout count to zero,
  -- whatever else becomes of the status.
  pub add_status-resets :
      (now : ℕ) (a : StatusAggregator) (status : Buffer) (d : DeviceIdentification)
      → is_not_ok (m.is_device_type_supported d.device_type) ≡ false
      → get_device_timeout_count (add_status_to_aggregator m now a status d).0 d ≡ 0
  unfolding add_status_to_aggregator register_device force_aggregation_on_device
      get_device_timeout_count
  add_status-resets now a status d s =
      ground (arith, find-assign device_eq d d 0 a.device_timeouts, device_eq.same_refl d)
