-- ===== src/StatusAggregator/Messages.antt =====
-- The queue of aggregated messages of a device: what `add_status_to_aggregator` puts in, and what
-- `get_aggregated_status` takes out.
use module_gateway.Common.{
  ℕ, zero, suc, true, false, List, [], ◌∷◌, some, length, ◌≡◌, arith, Bool-cases, inl, inr,
}
use module_gateway.Common.Dict.{Dict, find, contains, modify, try_emplace, assign}
use module_gateway.Common.Dict.Laws.{
  find-modify, find-try_emplace, contains_iff_find, contains-modify,
}
use module_gateway.Structures.Buffer.{Buffer, empty_buffer}
use module_gateway.Structures.ReturnCode.{count, ok, no_message_available, is_ok}
use module_gateway.Structures.Device.{DeviceIdentification, device_eq}
use module_gateway.Structures.Module.{ModuleLibraryHandler}
use module_gateway.Structures.DeviceState.{
  DeviceState, pop, new_state, enable_immediate_command_forwarding,
}
use module_gateway.StatusAggregator.{
  StatusAggregator, messages_of, is_device_valid, force_aggregation_on_device, register_device,
  add_status_to_aggregator, get_aggregated_status, push_status,
}

messages_of-modify :
    (d : DeviceIdentification) (f : DeviceState → DeviceState)
    (devices : Dict DeviceIdentification DeviceState) (s : DeviceState)
    → find device_eq d devices ≡ some s
    → messages_of d (modify device_eq d f devices) ≡ (f s).aggregated_messages
unfolding messages_of
messages_of-modify d f devices s h =
    ground (arith, find-modify device_eq d d f devices, device_eq.same_refl d)

module _ (m : ModuleLibraryHandler) where
  register_messages :
      (now : ℕ) (a : StatusAggregator) (status : Buffer) (d : DeviceIdentification) {n : ℕ}
      → is_ok (m.is_device_type_supported d.device_type) ≡ true
      → contains device_eq d a.devices ≡ false
      → (register_device m now a status d).1 ≡ count n
      → (messages_of d (register_device m now a status d).0.devices ≡ status ∷ []) × (n ≡ 1)
  unfolding register_device force_aggregation_on_device is_device_valid messages_of new_state
  register_messages now a status d s h r =
      let fresh = new_state now (m.generate_first_command d.device_type).1 status in
      let added = try_emplace device_eq d fresh a.devices in
      ground (
        arith,
        contains_iff_find device_eq d a.devices,
        find-try_emplace device_eq d d fresh a.devices,
        contains_iff_find device_eq d added,
        contains-modify device_eq d d enable_immediate_command_forwarding added,
        find-modify device_eq d d enable_immediate_command_forwarding added,
        find-modify device_eq d d push_status added,
        find-modify device_eq d d push_status
            (modify device_eq d enable_immediate_command_forwarding added),
        device_eq.same_refl d,
      )

  -- Of a device whose type the module supports, the count that `add_status_to_aggregator` returns
  -- is the number of messages that then wait in that device's queue.
  pub add_status_count :
      (now : ℕ) (a : StatusAggregator) (status : Buffer) (d : DeviceIdentification) (n : ℕ)
      → is_ok (m.is_device_type_supported d.device_type) ≡ true
      → (add_status_to_aggregator m now a status d).1 ≡ count n
      → length (messages_of d (add_status_to_aggregator m now a status d).0.devices) ≡ n
  unfolding add_status_to_aggregator
  add_status_count now a status d n s r = elim (Bool-cases (contains device_eq d a.devices)) [
    | inl old ↦ ground arith
    | inr new ↦ ground (
      arith,
      register_messages now (record a { device_timeouts = assign device_eq d 0 a.device_timeouts })
          status d {n = n} s new,
    )
  ]

  -- The oldest message leaves the queue of a valid device, and the rest stays in order.
  pub take_oldest :
      (a : StatusAggregator) (g b : Buffer) (q : List Buffer) (d : DeviceIdentification)
      → is_ok (is_device_valid m a d) ≡ true
      → messages_of d a.devices ≡ b ∷ q
      → let r = get_aggregated_status m a g d in
        (r.1 ≡ ok)
        × (r.2 ≡ b)
        × (messages_of d r.0.devices ≡ q)
        × (is_ok (is_device_valid m r.0 d) ≡ true)
  unfolding get_aggregated_status messages_of is_device_valid
  take_oldest a g b q d v h =
      let f = λ (s : DeviceState). record s { aggregated_messages = pop s.aggregated_messages } in
      ground (
        arith,
        find-modify device_eq d d f a.devices,
        contains-modify device_eq d d f a.devices,
        device_eq.same_refl d,
      )

  -- `n` calls of `get_aggregated_status`, each with an empty buffer.
  pub take_messages : ℕ → StatusAggregator → DeviceIdentification → List Buffer × StatusAggregator
  take_messages zero a d = ([], a)
  take_messages (suc n) a d =
      let (a', rc, b) = get_aggregated_status m a empty_buffer d in
      let (bs, a'') = take_messages n a' d in (b ∷ bs, a'')

  -- As many calls of `get_aggregated_status` as messages wait, on a valid device, return the
  -- messages in the order in which they came in; the next call answers NO_MESSAGE_AVAILABLE.
  pub take_messages_drains :
      (a : StatusAggregator) (d : DeviceIdentification) (q : List Buffer)
      → is_ok (is_device_valid m a d) ≡ true
      → messages_of d a.devices ≡ q
      → let (bs, a') = take_messages (length q) a d in
        (bs ≡ q) × ((get_aggregated_status m a' empty_buffer d).1 ≡ no_message_available)
  unfolding take_messages
  take_messages_drains a d [] v h = unfold get_aggregated_status in ground arith
  take_messages_drains a d (b ∷ q) v h =
      let (rc, hb, hq, v') = take_oldest a empty_buffer b q d v h in
      let (bs, last) =
        take_messages_drains (get_aggregated_status m a empty_buffer d).0 d q v' hq in
      (cc, last)
