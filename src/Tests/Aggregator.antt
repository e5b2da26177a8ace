-- ===== src/Tests/Aggregator.antt =====
-- The theorems on the status aggregator, applied to the sample library.
use module_gateway.Common.{ℕ, ◌≤◌, ◌+◌, true, length, Bool, false, List, [], ◌∷◌, ◌≡◌, refl}
use module_gateway.Common.Dict.{assign, contains, find, modify, try_emplace}
use module_gateway.Structures.Buffer.{Buffer, empty_buffer, is_allocated}
use module_gateway.Structures.ReturnCode.{count}
use module_gateway.Structures.Outcome.{thrown, out_of_range}
use module_gateway.Structures.Device.{same_device, device_eq}
use module_gateway.Structures.ThreadTimer.{started, ends, expire, fires, rearm}
use module_gateway.Structures.DeviceState.{DeviceState, new_state, add_external_command}
use module_gateway.StatusAggregator.{
  StatusAggregator, tick, update_command, timeouted_force_aggregation, init, messages_of,
  is_device_valid, remove_device, run_posted, add_status_to_aggregator, get_command,
  register_device, force_aggregation_on_device,
}
use module_gateway.StatusAggregator.Calls.{
  Call, step, run, add_status_call, update_call, tick_call, take_call,
}
use module_gateway.Structures.Constants.{max_external_commands, status_aggregation_timeout}
use module_gateway.StatusAggregator.Consistent.{Consistent}
use module_gateway.StatusAggregator.Consistent.Steps.{run-init-Consistent, run-init-IsGood}
use module_gateway.StatusAggregator.Isolation.{Agrees, step-Agrees}
use module_gateway.StatusAggregator.Removal.{readded_is_erased}
use module_gateway.Tests.{button, lamp, buffer_of, sample_library}

abbrev status : Buffer
status = buffer_of (1 ∷ 2 ∷ [])

-- The timer of the device has ended, and is armed again.
abbrev rung_calls : List Call
rung_calls =
    add_status_call 0 status button
    ∷ update_call (buffer_of (9 ∷ [])) button
    ∷ tick_call 15 false button
    ∷ []

abbrev rung_state : DeviceState
rung_state = record {
  timer = record { ended = false; expires_at = 15 + status_aggregation_timeout; waiting = true };
  aggregated_messages = status ∷ status ∷ [];
  status = status;
  default_command = buffer_of (7 ∷ []);
  external_commands = buffer_of (9 ∷ []) ∷ [];
  forward_command_immediately = false;
}

run-init-IsGood_example :
    let a = run sample_library init rung_calls in
    (contains device_eq button a.device_timeouts ≡ true)
    × (length rung_state.external_commands ≤ max_external_commands)
    × (rung_state.timer.ended ≡ false)
    × (rung_state.timer.waiting ≡ true)
unfolding run step init find tick update_command contains add_status_to_aggregator
    force_aggregation_on_device is_device_valid try_emplace same_device modify is_allocated ends
    add_external_command new_state fires timeouted_force_aggregation rearm expire started assign
    register_device
run-init-IsGood_example = run-init-IsGood sample_library rung_calls button rung_state refl

-- One registered device, whose first status waits.
abbrev one_device : StatusAggregator
one_device = (add_status_to_aggregator sample_library 0 init status button).0

step-Agrees_example : Agrees lamp one_device (step sample_library one_device (take_call button))
step-Agrees_example =
    step-Agrees sample_library one_device (take_call button) lamp (unfold same_device in refl)

abbrev fresh : DeviceState
fresh = new_state 0 (buffer_of (7 ∷ [])) status

abbrev commands : List Buffer
commands = buffer_of (1 ∷ []) ∷ buffer_of (2 ∷ []) ∷ buffer_of (3 ∷ []) ∷ buffer_of (4 ∷ []) ∷ []

abbrev stocked : Bool → DeviceState
stocked forwarding = record {
  timer = started 0;
  aggregated_messages = [];
  status = status;
  default_command = buffer_of (7 ∷ []);
  external_commands = commands;
  forward_command_immediately = forwarding;
}

one_device-Consistent : Consistent one_device
unfolding step run
one_device-Consistent = run-init-Consistent sample_library (add_status_call 0 status button ∷ [])

readded_is_erased_example :
    let readded =
      add_status_to_aggregator sample_library 1
        (remove_device sample_library one_device button).0
        status
        button in
    let later = run_posted sample_library readded.0 in
    ((n : ℕ) × (readded.1 ≡ count n))
    × (contains device_eq button later.devices ≡ false)
    × (get_command sample_library later status button empty_buffer ≡ thrown out_of_range)
unfolding init add_status_to_aggregator register_device force_aggregation_on_device is_device_valid
    messages_of new_state started contains try_emplace same_device modify find
readded_is_erased_example =
    readded_is_erased sample_library one_device button 1 status empty_buffer one_device-Consistent
      refl refl
