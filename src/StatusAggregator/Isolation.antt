-- ===== src/StatusAggregator/Isolation.antt =====
-- A call about one device leaves the others alone.
use module_gateway.Common.{
  ℕ, suc, Bool, true, false, List, [], ◌∷◌, ◌≡◌, refl, arith, Option-cases, inl, inr,
}
use module_gateway.Common.Dict.{Dict, find, modify, try_emplace, assign}
use module_gateway.Common.Dict.Laws.{find-modify, find-try_emplace, find-assign, find-erase_ne}
use module_gateway.Structures.Buffer.{Buffer, empty_buffer}
use module_gateway.Structures.Device.{DeviceIdentification, device_eq, same_device}
use module_gateway.Structures.Module.{ModuleLibraryHandler}
use module_gateway.Structures.DeviceState.{
  DeviceState, pop, new_state, consume_command, add_external_command,
  enable_immediate_command_forwarding,
}
use module_gateway.StatusAggregator.{
  StatusAggregator, clear_device, remove_device, run_posted, tick, force_aggregation_on_device,
  timeouted_force_aggregation, register_device, receive_status, add_status_to_aggregator,
  get_aggregated_status, update_command, get_command, answer_command, get_command_for_forwarding,
  clear_messages, push_status, expire_timer, rearm_timer,
}
use module_gateway.StatusAggregator.Calls.{
  Call, state_after, step, clear_device_call, remove_call, force_call, forward_call, take_call,
  clear_all_call, run_posted_call, unset_call, add_status_call, update_call, command_call,
  tick_call,
}

-- Whether a call is about a device that is the same as `j`.
abbrev pub concerns : StatusAggregator → Call → DeviceIdentification → Bool
concerns a (clear_device_call d) j = same_device d j
concerns a (remove_call d) j = same_device d j
concerns a (force_call d) j = same_device d j
concerns a (forward_call d) j = same_device d j
concerns a (take_call d) j = same_device d j
concerns a clear_all_call j = true
concerns a run_posted_call j = elim a.posted [ [] ↦ false | d ∷ ds ↦ same_device d j ]
concerns a unset_call j = false
concerns a (add_status_call now status d) j = same_device d j
concerns a (update_call command d) j = same_device d j
concerns a (command_call status d) j = same_device d j
concerns a (tick_call now aborted d) j = same_device d j

-- The state and the timeout count of `j` are the same in both.
abbrev pub Agrees : DeviceIdentification → StatusAggregator → StatusAggregator → Type 0
Agrees j a b =
    (find device_eq j b.devices ≡ find device_eq j a.devices)
    × (find device_eq j b.device_timeouts ≡ find device_eq j a.device_timeouts)

module _ (m : ModuleLibraryHandler) (j d : DeviceIdentification)
    (other : same_device d j ≡ false) where
  modify_other :
      (f : DeviceState → DeviceState) (devices : Dict DeviceIdentification DeviceState)
      → find device_eq j (modify device_eq d f devices) ≡ find device_eq j devices
  modify_other f devices = ground (arith, find-modify device_eq j d f devices)

  clear_other : (a : StatusAggregator) → Agrees j a (clear_device m a d).0
  unfolding clear_device
  clear_other a = ground (arith, modify_other clear_messages a.devices)

  force_other : (a : StatusAggregator) → Agrees j a (force_aggregation_on_device m a d).0
  unfolding force_aggregation_on_device
  force_other a = ground (arith, modify_other push_status a.devices)

  add_status_other :
      (now : ℕ) (a : StatusAggregator) (status : Buffer)
      → Agrees j a (add_status_to_aggregator m now a status d).0
  unfolding add_status_to_aggregator register_device
  add_status_other now a status =
      let fresh = new_state now (m.generate_first_command d.device_type).1 status in
      let added = try_emplace device_eq d fresh a.devices in
      let timeouts = assign device_eq d 0 a.device_timeouts in
      let a' = record a { device_timeouts = timeouts } in
      ground (
        arith,
        find-assign device_eq j d 0 a.device_timeouts,
        modify_other (receive_status m now status d.device_type) a.devices,
        find-try_emplace device_eq j d fresh a.devices,
        modify_other enable_immediate_command_forwarding added,
        force_other (record a' { devices = added }),
        force_other
            (record a' { devices = modify device_eq d enable_immediate_command_forwarding added }),
      )

  tick_other :
      (now : ℕ) (aborted : Bool) (a : StatusAggregator) → Agrees j a (tick m now aborted a d)
  unfolding tick timeouted_force_aggregation
  tick_other now aborted a =
      let timeouts = modify device_eq d suc (try_emplace device_eq d 0 a.device_timeouts) in
      let expired = modify device_eq d expire_timer a.devices in
      let a' = record a {
        devices = expired;
        timeouted_message_ready = true;
        device_timeouts = timeouts;
      } in
      ground (
        arith,
        find-modify device_eq j d suc (try_emplace device_eq d 0 a.device_timeouts),
        find-try_emplace device_eq j d 0 a.device_timeouts,
        force_other a',
        modify_other expire_timer a.devices,
        modify_other (rearm_timer now) (force_aggregation_on_device m a' d).0.devices,
      )

  get_command_other :
      (a : StatusAggregator) (status b : Buffer)
      → Agrees j a (state_after a (get_command m a status d b))
  unfolding get_command
  get_command_other a status b = elim (Option-cases (find device_eq d a.devices)) [
    | inl e ↦ ground arith
    | inr (s, e) ↦ ground (
      arith,
      modify_other (λ _. (answer_command m status b d.device_type (consume_command s)).0) a.devices,
    )
  ]

  forward_other :
      (a : StatusAggregator) (b : Buffer)
      → Agrees j a (state_after a (get_command_for_forwarding m a d b))
  unfolding get_command_for_forwarding
  forward_other a b = elim (Option-cases (find device_eq d a.devices)) [
    | inl e ↦ ground arith
    | inr (s, e) ↦ ground (arith, get_command_other a s.status b)
  ]

-- A call that does not concern a device leaves that device's state (status, queues, default
-- command, timer) and its timeout count as they were.
pub step-Agrees :
    (m : ModuleLibraryHandler) (a : StatusAggregator) (c : Call) (j : DeviceIdentification)
    → concerns a c j ≡ false
    → Agrees j a (step m a c)
unfolding step remove_device get_aggregated_status update_command run_posted
step-Agrees m a (clear_device_call d) j h = clear_other m j d h a
step-Agrees m a (remove_call d) j h = ground (arith, clear_other m j d h a)
step-Agrees m a (force_call d) j h = force_other m j d h a
step-Agrees m a (forward_call d) j h = forward_other m j d h a empty_buffer
step-Agrees m a (take_call d) j h = ground (
  arith,
  modify_other m j d h (λ s. record s { aggregated_messages = pop s.aggregated_messages })
      a.devices,
)
step-Agrees m a clear_all_call j h = cc
step-Agrees m a run_posted_call j h = run_posted_other a.posted refl
  where
    run_posted_other :
        (ds : List DeviceIdentification) → a.posted ≡ ds → Agrees j a (run_posted m a)
    run_posted_other [] e = ground arith
    run_posted_other (d ∷ ds) e = ground (arith, find-erase_ne device_eq j d a.devices)
step-Agrees m a unset_call j h = (refl, refl)
step-Agrees m a (add_status_call now status d) j h = add_status_other m j d h now a status
step-Agrees m a (update_call c d) j h =
    ground (arith, modify_other m j d h (λ s. (add_external_command c s).0) a.devices)
step-Agrees m a (command_call status d) j h = get_command_other m j d h a status empty_buffer
step-Agrees m a (tick_call now aborted d) j h = tick_other m j d h now aborted a
