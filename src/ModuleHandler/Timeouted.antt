-- ===== src/ModuleHandler/Timeouted.antt =====
-- `checkTimeoutedMessages`, for the status aggregator of one module: what the timers aggregated goes
-- to the external client's queue, and a device that was silent for too long is disconnected.
use module_gateway.Common.{
  ℕ, zero, suc, ◌<◌, true, false, List, [], ◌∷◌, ◌++◌, Option, none, some, length, map, leb, All,
  All-map, Bool-cases, inl, inr, if◌then◌else◌, ◌≡◌, refl, sym, arith,
}
use mathlib.Core.List.{append_assoc, append-nil}
use module_gateway.Common.Dict.{keys}
use module_gateway.Common.Dict.Laws.{find-modify, contains-modify, find_congr}
use module_gateway.Structures.Buffer.{Buffer, empty_buffer}
use module_gateway.Structures.Constants.{status_aggregation_timeout_max_count}
use module_gateway.Structures.ReturnCode.{is_ok, is_not_ok, is_negative}
use module_gateway.Structures.DeviceState.{DeviceState, pop}
use module_gateway.Structures.Device.{DeviceIdentification, device_eq}
use module_gateway.Structures.Module.{ModuleLibraryHandler}
use module_gateway.Structures.Messages.{disconnect_device}
use module_gateway.StatusAggregator.{
  StatusAggregator, messages_of, is_device_valid, get_aggregated_status, get_unique_devices,
  unset_timeouted_message_ready, get_device_timeout_count,
}
use module_gateway.StatusAggregator.Messages.{take_oldest}
use module_gateway.ModuleHandler.{Exchange, push_internal, push_external, status_message}

module _ (m : ModuleLibraryHandler) where
  -- while(true) of a device; `none`: the fuel ran out.
  unfoldable pub drain : ℕ → DeviceIdentification → Exchange → Option Exchange
  drain zero d x = none
  drain (suc fuel) d x =
      let (a, rc, b) = get_aggregated_status m x.aggregator empty_buffer d in
      let taken = record x { aggregator = a } in
      let rest = drain fuel d (push_external (status_message false d b) taken) in
      if is_negative rc then some taken else rest

  -- The disconnect of a device whose timer has ended too often.
  unfoldable pub disconnect_silent : DeviceIdentification → Exchange → Exchange
  disconnect_silent d x =
      if leb status_aggregation_timeout_max_count (get_device_timeout_count x.aggregator d)
      then push_internal (disconnect_device d) x
      else x

  unfoldable pub check_device : ℕ → DeviceIdentification → Exchange → Option Exchange
  check_device fuel d x = elim (drain fuel d x) [
    | none ↦ none
    | some y ↦ some (disconnect_silent d y)
  ]

  unfoldable pub check_devices : ℕ → List DeviceIdentification → Exchange → Option Exchange
  check_devices fuel [] x = some x
  check_devices fuel (d ∷ ds) x = elim (check_device fuel d x) [
    | none ↦ none
    | some y ↦ check_devices fuel ds y
  ]

  unfoldable pub check_timeouted_messages : ℕ → Exchange → Option Exchange
  check_timeouted_messages fuel x =
      let (ds, rc) = get_unique_devices m x.aggregator in
      if x.aggregator.timeouted_message_ready
      then (if is_not_ok rc then some x else elim (check_devices fuel ds x) [
        | none ↦ none
        | some y ↦ some (record y { aggregator = unset_timeouted_message_ready y.aggregator })
      ])
      else some x

  drain-sends :
      (fuel : ℕ) (d : DeviceIdentification) (q : List Buffer) (x : Exchange)
      → is_ok (is_device_valid m x.aggregator d) ≡ true
      → messages_of d x.aggregator.devices ≡ q
      → length q < fuel
      → (y : Exchange) × (drain fuel d x ≡ some y)
        × (y.to_external ≡ x.to_external ++ map (status_message false d) q)
        × (y.to_internal ≡ x.to_internal)
        × (messages_of d y.aggregator.devices ≡ [])
        × (y.aggregator.device_timeouts ≡ x.aggregator.device_timeouts)
  unfolding drain
  drain-sends zero d q x v h l = absurd (omega arith)
  drain-sends (suc fuel) d [] x v h l = (
    record x { aggregator = (get_aggregated_status m x.aggregator empty_buffer d).0 },
    unfold get_aggregated_status in ground arith,
    sym (append-nil x.to_external),
    refl,
    unfold get_aggregated_status in ground arith,
    unfold get_aggregated_status in ground arith,
  )
  drain-sends (suc fuel) d (b ∷ q) x v h l =
      let (rc, hb, hq, v') = take_oldest m x.aggregator empty_buffer b q d v h in
      let a = (get_aggregated_status m x.aggregator empty_buffer d).0 in
      let next : Exchange =
        push_external
          (status_message false d (get_aggregated_status m x.aggregator empty_buffer d).2)
          (record x { aggregator = a }) in
      let (y, drained, external, internal, none_left, timeouts) =
        drain-sends fuel d q next v' hq (omega arith) in
      let same : a.device_timeouts ≡ x.aggregator.device_timeouts =
        unfold get_aggregated_status in ground arith in
      let assoc =
        append_assoc x.to_external (status_message false d b ∷ [])
          (map (status_message false d) q) in
      (y, ground arith, ground arith, ground arith, none_left, ground arith)

  -- With more fuel than messages, the check of a registered device ends: every message that waits
  -- for the device goes to the external client's queue in order, none is left, and the order to
  -- disconnect the device is queued exactly if its timer has ended
  -- `status_aggregation_timeout_max_count` times or more since its last status.
  pub check_device-sends :
      (fuel : ℕ) (d : DeviceIdentification) (x : Exchange)
      → is_ok (is_device_valid m x.aggregator d) ≡ true
      → length (messages_of d x.aggregator.devices) < fuel
      → (y : Exchange) × (check_device fuel d x ≡ some y)
        × (y.to_external
            ≡ x.to_external ++ map (status_message false d) (messages_of d x.aggregator.devices))
        × (y.to_internal ≡ (
            if leb status_aggregation_timeout_max_count (get_device_timeout_count x.aggregator d)
            then x.to_internal ++ disconnect_device d ∷ []
            else x.to_internal))
        × (messages_of d y.aggregator.devices ≡ [])
  unfolding check_device disconnect_silent get_device_timeout_count
  check_device-sends fuel d x v l =
      let (y, drained, external, internal, none_left, timeouts) =
        drain-sends fuel d (messages_of d x.aggregator.devices) x v refl l in
      (disconnect_silent d y, ground arith, ground arith, ground arith, ground arith)

  -- The device is registered, and there is fuel for its messages.
  abbrev pub HasFuel : ℕ → StatusAggregator → DeviceIdentification → Type 0
  HasFuel fuel a d =
      (is_ok (is_device_valid m a d) ≡ true) × (length (messages_of d a.devices) < fuel)

  take-HasFuel :
      (fuel : ℕ) (a : StatusAggregator) (d j : DeviceIdentification)
      → HasFuel fuel a j
      → HasFuel fuel (get_aggregated_status m a empty_buffer d).0 j
  unfolding get_aggregated_status is_device_valid messages_of
  take-HasFuel fuel a d j h =
      let popped =
        λ (s : DeviceState). record s { aggregated_messages = pop s.aggregated_messages } in
      ground (
        arith,
        find-modify device_eq j d popped a.devices,
        contains-modify device_eq j d popped a.devices,
        find_congr device_eq d j a.devices,
      )

  drain-HasFuel :
      (fuel rounds : ℕ) (d j : DeviceIdentification) (x y : Exchange)
      → drain rounds d x ≡ some y
      → HasFuel fuel x.aggregator j
      → HasFuel fuel y.aggregator j
  unfolding drain
  drain-HasFuel fuel zero d j x y e h = cc
  drain-HasFuel fuel (suc rounds) d j x y e h =
      let r = get_aggregated_status m x.aggregator empty_buffer d in
      let next : Exchange =
        push_external (status_message false d r.2) (record x { aggregator = r.0 }) in
      let kept = take-HasFuel fuel x.aggregator d j h in
      elim (Bool-cases (is_negative r.1)) [
        | inl p ↦ let ended : record x { aggregator = r.0 } ≡ y = ground arith in rw (← ended) kept
        | inr p ↦ drain-HasFuel fuel rounds d j next y (ground arith) kept
      ]

  -- With fuel for the messages of every device, the check of all timed out messages ends.
  check_devices-total :
      (fuel : ℕ) (ds : List DeviceIdentification) (x : Exchange)
      → All (HasFuel fuel x.aggregator) ds
      → (y : Exchange) × (check_devices fuel ds x ≡ some y)
  unfolding check_devices check_device disconnect_silent
  check_devices-total fuel [] x h = (x, refl)
  check_devices-total fuel (d ∷ ds) x h =
      let (y, drained, _, _, _, _) =
        drain-sends fuel d (messages_of d x.aggregator.devices) x h.0.0 refl h.0.1 in
      let kept = All-map _ _ (λ j q. drain-HasFuel fuel fuel d j x y drained q) ds h.1 in
      let same : (disconnect_silent d y).aggregator ≡ y.aggregator = ground arith in
      let (z, checked) = check_devices-total fuel ds (disconnect_silent d y) (rw same kept) in
      (z, ground arith)

  -- With more fuel than messages wait for any registered device, the check of the timed out messages
  -- ends, and the flag that says that there are some is not set any more.
  pub check_timeouted_messages-total :
      (fuel : ℕ) (x : Exchange)
      → All (HasFuel fuel x.aggregator) (get_unique_devices m x.aggregator).0
      → (y : Exchange) × (check_timeouted_messages fuel x ≡ some y)
        × (y.aggregator.timeouted_message_ready ≡ false)
  unfolding check_timeouted_messages get_unique_devices
  check_timeouted_messages-total fuel x h =
      let (y, checked) = check_devices-total fuel (keys x.aggregator.devices) x h in
      elim (Bool-cases x.aggregator.timeouted_message_ready) [
        | inl set ↦ (
          record y { aggregator = unset_timeouted_message_ready y.aggregator },
          ground arith,
          refl,
        )
        | inr clear ↦ (x, ground arith, clear)
      ]
