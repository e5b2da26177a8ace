-- ===== src/ModuleHandler/Sparing.antt =====
-- What the calls of other threads leave of a device that they are not about.
use module_gateway.Common.{
  ℕ, Bool, true, false, List, [], ◌∷◌, ◌++◌, ◌≡◌, refl, All, ◌∙◌, arith, Option-cases, inl, inr,
}
use module_gateway.Common.Dict.{find}
use module_gateway.Structures.Buffer.{Buffer, empty_buffer}
use module_gateway.Structures.Device.{DeviceIdentification, device_eq, same_device}
use module_gateway.Structures.Module.{ModuleLibraryHandler}
use module_gateway.ExternalClient.SentMessages.{any_same}
use module_gateway.StatusAggregator.{
  StatusAggregator, clear_device, remove_device, run_posted, tick, force_aggregation_on_device,
  timeouted_force_aggregation, register_device, add_status_to_aggregator, get_aggregated_status,
  update_command, get_command, get_command_for_forwarding,
}
use module_gateway.StatusAggregator.Calls.{
  Call, state_after, step, run, clear_device_call, remove_call, force_call, forward_call, take_call,
  clear_all_call, run_posted_call, unset_call, add_status_call, update_call, command_call,
  tick_call,
}
use module_gateway.StatusAggregator.Isolation.{concerns, Agrees, step-Agrees}

-- Whether a call names a device that is the same as `j`, or all devices.
abbrev pub is_about : Call → DeviceIdentification → Bool
is_about (clear_device_call d) j = same_device d j
is_about (remove_call d) j = same_device d j
is_about (force_call d) j = same_device d j
is_about (forward_call d) j = same_device d j
is_about (take_call d) j = same_device d j
is_about clear_all_call j = true
is_about run_posted_call j = false
is_about unset_call j = false
is_about (add_status_call now status d) j = same_device d j
is_about (update_call command d) j = same_device d j
is_about (command_call status d) j = same_device d j
is_about (tick_call now aborted d) j = same_device d j

abbrev pub Spares : DeviceIdentification → List Call → Type 0
Spares j cs = All (λ c. is_about c j ≡ false) cs

-- No erasure of the device is posted.
abbrev pub IsStaying : DeviceIdentification → StatusAggregator → Type 0
IsStaying j a = any_same j a.posted ≡ false

any_same-append :
    (j d : DeviceIdentification) (ds : List DeviceIdentification)
    → same_device d j ≡ false
    → any_same j ds ≡ false
    → any_same j (ds ++ d ∷ []) ≡ false
unfolding any_same
any_same-append j d [] other h = ground (arith, device_eq.same_sym d j)
any_same-append j d (e ∷ ds) other h = ground (arith, any_same-append j d ds other)

module _ (m : ModuleLibraryHandler) where
  force_posted_lem :
      (a : StatusAggregator) (d : DeviceIdentification)
      → (force_aggregation_on_device m a d).0.posted ≡ a.posted
  unfolding force_aggregation_on_device
  force_posted_lem a d = ground arith

  get_command_posted_lem :
      (a : StatusAggregator) (status : Buffer) (d : DeviceIdentification) (b : Buffer)
      → (state_after a (get_command m a status d b)).posted ≡ a.posted
  unfolding get_command
  get_command_posted_lem a status d b = elim (Option-cases (find device_eq d a.devices)) [
    | inl e ↦ ground (arith, e)
    | inr (s, e) ↦ ground (arith, e)
  ]

  forward_posted_lem :
      (a : StatusAggregator) (d : DeviceIdentification) (b : Buffer)
      → (state_after a (get_command_for_forwarding m a d b)).posted ≡ a.posted
  unfolding get_command_for_forwarding
  forward_posted_lem a d b = elim (Option-cases (find device_eq d a.devices)) [
    | inl e ↦ ground (arith, e)
    | inr (s, e) ↦ ground (arith, e, get_command_posted_lem a s.status d b)
  ]

  pub add_status_posted_lem :
      (now : ℕ) (a : StatusAggregator) (status : Buffer) (d : DeviceIdentification)
      → (add_status_to_aggregator m now a status d).0.posted ≡ a.posted
  unfolding add_status_to_aggregator register_device force_aggregation_on_device
  add_status_posted_lem now a status d = ground arith

  tick_posted_lem :
      (now : ℕ) (aborted : Bool) (a : StatusAggregator) (d : DeviceIdentification)
      → (tick m now aborted a d).posted ≡ a.posted
  unfolding tick timeouted_force_aggregation force_aggregation_on_device
  tick_posted_lem now aborted a d = ground arith

  step-IsStaying :
      (a : StatusAggregator) (c : Call) (j : DeviceIdentification)
      → is_about c j ≡ false
      → IsStaying j a
      → IsStaying j (step m a c)
  unfolding step clear_device remove_device get_aggregated_status update_command run_posted
  step-IsStaying a (clear_device_call d) j h p = ground (arith, p)
  step-IsStaying a (remove_call d) j h p = ground (arith, p, any_same-append j d a.posted h p)
  step-IsStaying a (force_call d) j h p = ground (arith, p, force_posted_lem a d)
  step-IsStaying a (forward_call d) j h p = ground (arith, p, forward_posted_lem a d empty_buffer)
  step-IsStaying a (take_call d) j h p = ground (arith, p)
  step-IsStaying a clear_all_call j h p = cc
  step-IsStaying a run_posted_call j h p = posted_lem a.posted refl
    where
      posted_lem : (ds : List DeviceIdentification) → a.posted ≡ ds → IsStaying j (run_posted m a)
      posted_lem [] e = ground (arith, e, p)
      posted_lem (d ∷ ds) e = unfold any_same in ground (arith, e, p)
  step-IsStaying a unset_call j h p = p
  step-IsStaying a (add_status_call now status d) j h p =
      ground (arith, p, add_status_posted_lem now a status d)
  step-IsStaying a (update_call c d) j h p = ground (arith, p)
  step-IsStaying a (command_call status d) j h p =
      ground (arith, p, get_command_posted_lem a status d empty_buffer)
  step-IsStaying a (tick_call now aborted d) j h p =
      ground (arith, p, tick_posted_lem now aborted a d)

  spared_concerns_lem :
      (a : StatusAggregator) (c : Call) (j : DeviceIdentification)
      → is_about c j ≡ false
      → IsStaying j a
      → concerns a c j ≡ false
  unfolding any_same
  spared_concerns_lem a (clear_device_call d) j h p = h
  spared_concerns_lem a (remove_call d) j h p = h
  spared_concerns_lem a (force_call d) j h p = h
  spared_concerns_lem a (forward_call d) j h p = h
  spared_concerns_lem a (take_call d) j h p = h
  spared_concerns_lem a clear_all_call j h p = h
  spared_concerns_lem a run_posted_call j h p = posted_lem a.posted refl
    where
      posted_lem :
          (ds : List DeviceIdentification) → a.posted ≡ ds → concerns a run_posted_call j ≡ false
      posted_lem [] e = ground (arith, e)
      posted_lem (d ∷ ds) e = ground (arith, e, p, device_eq.same_sym d j)
  spared_concerns_lem a unset_call j h p = h
  spared_concerns_lem a (add_status_call now status d) j h p = h
  spared_concerns_lem a (update_call c d) j h p = h
  spared_concerns_lem a (command_call status d) j h p = h
  spared_concerns_lem a (tick_call now aborted d) j h p = h

  -- Calls that are not about a device, and do not erase it, leave its state as it was.
  pub run-Agrees :
      (cs : List Call) (a : StatusAggregator) (j : DeviceIdentification)
      → Spares j cs
      → IsStaying j a
      → Agrees j a (run m a cs) × IsStaying j (run m a cs)
  unfolding run
  run-Agrees [] a j s p = ((refl, refl), p)
  run-Agrees (c ∷ cs) a j s p =
      let first = step-Agrees m a c j (spared_concerns_lem a c j s.0 p) in
      let (later, stays) = run-Agrees cs (step m a c) j s.1 (step-IsStaying a c j s.0 p) in
      ((later.0 ∙ first.0, later.1 ∙ first.1), stays)
