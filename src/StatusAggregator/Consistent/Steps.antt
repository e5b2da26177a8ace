-- ===== src/StatusAggregator/Consistent/Steps.antt =====
-- Each call keeps the aggregator consistent.
use module_gateway.Common.{
  ℕ, suc, ◌≤◌, Bool, true, false, List, length, some, subst, sym, ap, ◌∙◌, [], ◌∷◌, ◌≡◌, arith,
  Option-cases, inl, inr, if◌then◌else◌,
}
use module_gateway.Common.Dict.{find, contains, modify, try_emplace, assign, keys}
use module_gateway.Common.Dict.Laws.{find-Entries, find-contains, contains-assign}
use module_gateway.Structures.Buffer.{Buffer, empty_buffer}
use module_gateway.Structures.ReturnCode.{is_ok}
use module_gateway.Structures.Constants.{max_external_commands}
use module_gateway.Structures.Device.{DeviceIdentification, device_eq}
use module_gateway.Structures.Module.{ModuleLibraryHandler}
use module_gateway.Structures.ThreadTimer.{ends, fires}
use module_gateway.Structures.DeviceState.{
  DeviceState, pop, new_state, consume_command, add_external_command,
  enable_immediate_command_forwarding,
}
use module_gateway.StatusAggregator.{
  StatusAggregator, init, clear_device, clear_devices, clear_all_devices, remove_device, run_posted,
  run_first, tick, force_aggregation_on_device, timeouted_force_aggregation, register_device,
  receive_status, add_status_to_aggregator, get_aggregated_status, update_command, get_command,
  answer_command, get_command_for_forwarding, clear_messages, push_status, expire_timer,
  rearm_timer,
}
use module_gateway.StatusAggregator.Calls.{
  Call, state_after, step, run, clear_device_call, remove_call, force_call, forward_call, take_call,
  clear_all_call, run_posted_call, unset_call, add_status_call, update_call, command_call,
  tick_call,
}
use module_gateway.StatusAggregator.Consistent.{
  IsGood, IsConsistent, Consistent, modify-IsConsistent, try_emplace-IsConsistent,
  erase-IsConsistent, assign-IsConsistent, count-IsConsistent, new_state-IsGood,
  receive_status-IsGood, add_external_command-IsGood, consume_command-IsGood, answer_command-IsGood,
  rearm-IsGood, modify-modify,
}

module _ (m : ModuleLibraryHandler) where
  run_first-Consistent :
      (ds : List DeviceIdentification) (a : StatusAggregator)
      → Consistent a
      → Consistent (run_first m ds a)
  unfolding run_first
  run_first-Consistent [] a v = v
  run_first-Consistent (d ∷ ds) a v = erase-IsConsistent d v

  clear_device-Consistent :
      (a : StatusAggregator) (d : DeviceIdentification)
      → Consistent a
      → Consistent (clear_device m a d).0
  unfolding clear_device clear_messages
  clear_device-Consistent a d v = ground (arith, modify-IsConsistent d clear_messages (λ s g. g) v)

  clear_devices-Consistent :
      (ds : List DeviceIdentification) (a : StatusAggregator)
      → Consistent a
      → Consistent (clear_devices m ds a)
  unfolding clear_devices
  clear_devices-Consistent [] a v = v
  clear_devices-Consistent (d ∷ ds) a v =
      clear_devices-Consistent ds (clear_device m a d).0 (clear_device-Consistent a d v)

  force-Consistent :
      (a : StatusAggregator) (d : DeviceIdentification)
      → Consistent a
      → Consistent (force_aggregation_on_device m a d).0
  unfolding force_aggregation_on_device
  force-Consistent a d v = ground (arith, modify-IsConsistent d push_status (λ s g. g) v)

  timeouted_force-Consistent :
      (a : StatusAggregator) (d : DeviceIdentification)
      → Consistent a
      → Consistent (timeouted_force_aggregation m a d).0
  unfolding timeouted_force_aggregation
  timeouted_force-Consistent a d v = force-Consistent _ d (count-IsConsistent d v)

  remove-Consistent :
      (a : StatusAggregator) (d : DeviceIdentification)
      → Consistent a
      → Consistent (remove_device m a d).0
  unfolding remove_device
  remove-Consistent a d v = ground (arith, clear_device-Consistent a d v)

  register_device-Consistent :
      (now : ℕ) (a : StatusAggregator) (status : Buffer) (d : DeviceIdentification)
      → contains device_eq d a.device_timeouts ≡ true
      → Consistent a
      → Consistent (register_device m now a status d).0
  unfolding register_device
  register_device-Consistent now a status d t v =
      let command = (m.generate_first_command d.device_type).1 in
      let added =
        try_emplace-IsConsistent d (new_state now command status)
          (new_state-IsGood now command status) t v in
      ground (
        arith,
        added,
        modify-IsConsistent d enable_immediate_command_forwarding (λ s g. g) added,
        force-Consistent
            (record a {
              devices =
                  if is_ok (m.forward_command_on_receive d.device_type)
                  then modify device_eq d enable_immediate_command_forwarding
                      (try_emplace device_eq d (new_state now command status) a.devices)
                  else try_emplace device_eq d (new_state now command status) a.devices;
            })
            d,
      )

  add_status-Consistent :
      (now : ℕ) (a : StatusAggregator) (status : Buffer) (d : DeviceIdentification)
      → Consistent a
      → Consistent (add_status_to_aggregator m now a status d).0
  unfolding add_status_to_aggregator
  add_status-Consistent now a status d v =
      let reset = assign-IsConsistent d 0 v in
      ground (
        arith,
        contains-assign device_eq d d 0 a.device_timeouts,
        device_eq.same_refl d,
        modify-IsConsistent d (receive_status m now status d.device_type)
            (receive_status-IsGood m now status d.device_type) reset,
        register_device-Consistent now
            (record a { device_timeouts = assign device_eq d 0 a.device_timeouts }) status d,
        reset,
      )

  -- The timer of a device has ended, its callback has run, and it is armed again.
  fired-Consistent :
      (now : ℕ) (a : StatusAggregator) (d : DeviceIdentification)
      → Consistent a
      → let expired = record a { devices = modify device_eq d expire_timer a.devices } in
        let forced = (timeouted_force_aggregation m expired d).0 in
        IsConsistent (modify device_eq d (rearm_timer now) forced.devices) forced.device_timeouts
  unfolding timeouted_force_aggregation force_aggregation_on_device
  fired-Consistent now a d v =
      let counted = count-IsConsistent d v in
      let timeouts = modify device_eq d suc (try_emplace device_eq d 0 a.device_timeouts) in
      let expired = modify device_eq d expire_timer a.devices in
      let armed = modify device_eq d (rearm_timer now) expired in
      let pushed = modify device_eq d (rearm_timer now) (modify device_eq d push_status expired) in
      let armed_lem : IsConsistent armed timeouts =
        subst (λ ds. IsConsistent ds timeouts)
          (sym (modify-modify d (rearm_timer now) expire_timer a.devices))
          (modify-IsConsistent d (λ s. rearm_timer now (expire_timer s))
            (λ s g. (rearm-IsGood now s g).0) counted) in
      let pushed_lem : IsConsistent pushed timeouts =
        subst (λ ds. IsConsistent ds timeouts)
          (sym (
            ap (modify device_eq d (rearm_timer now))
              (modify-modify d push_status expire_timer a.devices)
            ∙ modify-modify d (rearm_timer now) (λ s. push_status (expire_timer s)) a.devices))
          (modify-IsConsistent d (λ s. rearm_timer now (push_status (expire_timer s)))
            (λ s g. (rearm-IsGood now s g).1) counted) in
      ground (arith, armed_lem, pushed_lem)

  tick-Consistent :
      (now : ℕ) (aborted : Bool) (a : StatusAggregator) (d : DeviceIdentification)
      → Consistent a
      → Consistent (tick m now aborted a d)
  unfolding tick ends fires
  tick-Consistent now aborted a d v = elim (Option-cases (find device_eq d a.devices)) [
    | inl e ↦ ground (arith, e, v)
    | inr (s, e) ↦
        let g = find-Entries device_eq IsGood d a.devices v.good e in
        ground (arith, e, g, v, fired-Consistent now a d v)
  ]

  take-Consistent :
      (a : StatusAggregator) (b : Buffer) (d : DeviceIdentification)
      → Consistent a
      → Consistent (get_aggregated_status m a b d).0
  unfolding get_aggregated_status
  take-Consistent a b d v = ground (
    arith,
    modify-IsConsistent d (λ s. record s { aggregated_messages = pop s.aggregated_messages })
        (λ s g. g) v,
  )

  update-Consistent :
      (a : StatusAggregator) (c : Buffer) (d : DeviceIdentification)
      → Consistent a
      → Consistent (update_command m a c d).0
  unfolding update_command
  update-Consistent a c d v = ground (
    arith,
    modify-IsConsistent d (λ s. (add_external_command c s).0) (add_external_command-IsGood c) v,
  )

  get_command-Consistent :
      (a : StatusAggregator) (status : Buffer) (d : DeviceIdentification) (b : Buffer)
      → Consistent a
      → Consistent (state_after a (get_command m a status d b))
  unfolding get_command
  get_command-Consistent a status d b v = elim (Option-cases (find device_eq d a.devices)) [
    | inl e ↦ ground arith
    | inr (s, e) ↦
        let (s', c) = consume_command s in
        let g = find-Entries device_eq IsGood d a.devices v.good e in
        let g' = answer_command-IsGood m status b d.device_type s' c (consume_command-IsGood s g) in
        ground (
          arith,
          modify-IsConsistent d (λ _. (answer_command m status b d.device_type (s', c)).0)
              (λ _ _. g') v,
        )
  ]

  forward-Consistent :
      (a : StatusAggregator) (d : DeviceIdentification) (b : Buffer)
      → Consistent a
      → Consistent (state_after a (get_command_for_forwarding m a d b))
  unfolding get_command_for_forwarding
  forward-Consistent a d b v = elim (Option-cases (find device_eq d a.devices)) [
    | inl e ↦ ground arith
    | inr (s, e) ↦ ground (arith, get_command-Consistent a s.status d b v)
  ]

  run_posted-Consistent : (a : StatusAggregator) → Consistent a → Consistent (run_posted m a)
  unfolding run_posted
  run_posted-Consistent a v = run_first-Consistent a.posted a v

  step-Consistent : (a : StatusAggregator) (c : Call) → Consistent a → Consistent (step m a c)
  unfolding step clear_all_devices
  step-Consistent a (clear_device_call d) v = clear_device-Consistent a d v
  step-Consistent a (remove_call d) v = remove-Consistent a d v
  step-Consistent a (force_call d) v = force-Consistent a d v
  step-Consistent a (forward_call d) v = forward-Consistent a d empty_buffer v
  step-Consistent a (take_call d) v = take-Consistent a empty_buffer d v
  step-Consistent a clear_all_call v = clear_devices-Consistent (keys a.devices) a v
  step-Consistent a run_posted_call v = run_posted-Consistent a v
  step-Consistent a unset_call v = v
  step-Consistent a (add_status_call now status d) v = add_status-Consistent now a status d v
  step-Consistent a (update_call c d) v = update-Consistent a c d v
  step-Consistent a (command_call status d) v = get_command-Consistent a status d empty_buffer v
  step-Consistent a (tick_call now aborted d) v = tick-Consistent now aborted a d v

  run-Consistent : (a : StatusAggregator) (cs : List Call) → Consistent a → Consistent (run m a cs)
  unfolding run
  run-Consistent a [] v = v
  run-Consistent a (c ∷ cs) v = run-Consistent (step m a c) cs (step-Consistent a c v)

  pub run-init-Consistent : (cs : List Call) → Consistent (run m init cs)
  unfolding init contains
  run-init-Consistent cs =
      run-Consistent init cs (record { distinct = tt; good = tt; timed = λ d h. cc })

  -- After any sequence of calls, posted handlers and ends of timers, from the empty aggregator: a
  -- registered device has a timeout count, its queue holds at most `max_external_commands` external
  -- commands, and its aggregation timer is enabled and has a pending wait, also after the wait before
  -- has ended and the aggregation was forced.
  pub run-init-IsGood :
      (cs : List Call) (d : DeviceIdentification) (s : DeviceState)
      → find device_eq d (run m init cs).devices ≡ some s
      → (contains device_eq d (run m init cs).device_timeouts ≡ true)
        × (length s.external_commands ≤ max_external_commands)
        × (s.timer.ended ≡ false)
        × (s.timer.waiting ≡ true)
  run-init-IsGood cs d s found =
      let kept = run-init-Consistent cs in
      let good = find-Entries device_eq IsGood d (run m init cs).devices kept.good found in
      (
        kept.timed d (find-contains device_eq d (run m init cs).devices found),
        good.0,
        good.1.0,
        good.1.1,
      )
