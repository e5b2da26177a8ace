-- ===== src/ModuleHandler/Asking.antt =====
-- source/bringauto/modules/StatusAggregator.cpp: what the calls of handleStatus that add a status and
-- ask for a command leave and give.
use module_gateway.Common.{
  ℕ, true, false, Option, none, some, ◌≡◌, ◌⊎◌, refl, arith, Bool-cases, inl, inr,
}
use module_gateway.Common.Dict.{contains, modify, try_emplace, assign}
use module_gateway.Common.Dict.Laws.{
  find-modify, contains-modify, find_of_contains, contains-try_emplace,
}
use module_gateway.Structures.Buffer.{Buffer, empty_buffer}
use module_gateway.Structures.ReturnCode.{
  ReturnCode, count, no_message_available, command_invalid, is_ok, is_not_ok,
}
use module_gateway.Structures.Outcome.{returned}
use module_gateway.Structures.Device.{DeviceIdentification, device_eq}
use module_gateway.Structures.DeviceState.{
  DeviceState, consume_command, new_state, enable_immediate_command_forwarding,
}
use module_gateway.Structures.Module.{ModuleLibraryHandler}
use module_gateway.StatusAggregator.{
  StatusAggregator, messages_of, is_device_valid, add_status_to_aggregator, get_command,
  answer_command, register_device, force_aggregation_on_device, receive_status, push_status,
}

module _ (m : ModuleLibraryHandler) where
  answer_command-messages :
      (status command : Buffer) (device_type : ℕ) (s : DeviceState)
      → (answer_command m status command device_type (consume_command s)).0.aggregated_messages
        ≡ s.aggregated_messages
  unfolding answer_command consume_command
  answer_command-messages status command device_type s = ground arith

  abbrev pub Answered : ReturnCode → Type 0
  Answered rc = (is_ok rc ≡ true) ⊎ ((rc ≡ no_message_available) ⊎ (rc ≡ command_invalid))

  answer_command-Answered :
      (status command : Buffer) (device_type : ℕ) (p : DeviceState × Option Buffer)
      → Answered (answer_command m status command device_type p).1
  unfolding answer_command
  answer_command-Answered status command device_type (s, none) = inr (inl refl)
  answer_command-Answered status command device_type (s, some c) =
      elim (Bool-cases (is_ok (m.generate_command status s.status c device_type).0)) [
        | inl p ↦ rw p (inl refl)
        | inr p ↦ rw p (inr (inr refl))
      ]

  -- Of a registered device with a supported type, a command is asked for without an exception, and
  -- its messages stay as they are.
  pub get_command_result :
      (a : StatusAggregator) (status : Buffer) (d : DeviceIdentification)
      → is_not_ok (m.is_device_type_supported d.device_type) ≡ false
      → contains device_eq d a.devices ≡ true
      → (a' : StatusAggregator) × (rc : ReturnCode) × (command : Buffer) × (get_command m a status d
            empty_buffer
          ≡ returned (a', rc, command))
        × (messages_of d a'.devices ≡ messages_of d a.devices)
        × (is_device_valid m a' d ≡ is_device_valid m a d)
        × Answered rc
        × (a'.posted ≡ a.posted)
  unfolding get_command messages_of is_device_valid
  get_command_result a status d k h =
      let (s, f) = find_of_contains device_eq d a.devices h in
      let r = answer_command m status empty_buffer d.device_type (consume_command s) in
      let a' : StatusAggregator = record a { devices = modify device_eq d (λ _. r.0) a.devices } in
      let kept = answer_command-messages status empty_buffer d.device_type s in
      let found = find-modify device_eq d d (λ _. r.0) a.devices in
      (
        a',
        r.1,
        r.2,
        rw (k, f, get_command) refl,
        ground (arith, device_eq.same_refl d),
        ground (arith, contains-modify device_eq d d (λ _. r.0) a.devices),
        answer_command-Answered status empty_buffer d.device_type (consume_command s),
        refl,
      )

  register-contains :
      (now : ℕ) (a : StatusAggregator) (status : Buffer) (d : DeviceIdentification) (n : ℕ)
      → (register_device m now a status d).1 ≡ count n
      → contains device_eq d (register_device m now a status d).0.devices ≡ true
  unfolding register_device force_aggregation_on_device is_device_valid
  register-contains now a status d n r =
      let fresh = new_state now (m.generate_first_command d.device_type).1 status in
      let added = try_emplace device_eq d fresh a.devices in
      let forwarding = modify device_eq d enable_immediate_command_forwarding added in
      ground (
        arith,
        contains-try_emplace device_eq d d fresh a.devices,
        contains-modify device_eq d d enable_immediate_command_forwarding added,
        contains-modify device_eq d d push_status added,
        contains-modify device_eq d d push_status forwarding,
        device_eq.same_refl d,
      )

  -- A status that was added leaves its device registered.
  pub add_status-valid :
      (now : ℕ) (a : StatusAggregator) (status : Buffer) (d : DeviceIdentification) (n : ℕ)
      → is_ok (m.is_device_type_supported d.device_type) ≡ true
      → (add_status_to_aggregator m now a status d).1 ≡ count n
      → is_ok (is_device_valid m (add_status_to_aggregator m now a status d).0 d) ≡ true
  unfolding add_status_to_aggregator is_device_valid
  add_status-valid now a status d n k h =
      let reset : StatusAggregator = record a {
        device_timeouts = assign device_eq d 0 a.device_timeouts;
      } in
      elim (Bool-cases (contains device_eq d a.devices)) [
        | inl old ↦ ground (
          arith,
          contains-modify device_eq d d (receive_status m now status d.device_type) a.devices,
        )
        | inr new ↦ ground (arith, register-contains now reset status d n)
      ]
