-- ===== src/StatusAggregator/Calls.antt =====
-- The public methods of StatusAggregator as one step function, with the events of the io context
-- (a posted handler, a timer).
use module_gateway.Common.{ℕ, Bool, List, [], ◌∷◌}
use module_gateway.Structures.Buffer.{Buffer, empty_buffer}
use module_gateway.Structures.ReturnCode.{ReturnCode}
use module_gateway.Structures.Outcome.{Outcome, returned, thrown}
use module_gateway.Structures.Device.{DeviceIdentification}
use module_gateway.Structures.Module.{ModuleLibraryHandler}
use module_gateway.StatusAggregator.{
  StatusAggregator, clear_device, clear_all_devices, remove_device, run_posted, tick,
  force_aggregation_on_device, add_status_to_aggregator, get_aggregated_status, update_command,
  get_command, get_command_for_forwarding, unset_timeouted_message_ready,
}

pub data Call : Type 0 where
  clear_device_call remove_call force_call forward_call take_call : DeviceIdentification → Call
  clear_all_call run_posted_call unset_call : Call
  add_status_call : ℕ → Buffer → DeviceIdentification → Call
  update_call command_call : Buffer → DeviceIdentification → Call
  tick_call : ℕ → Bool → DeviceIdentification → Call

-- An exception leaves the state as it was.
abbrev pub state_after :
    StatusAggregator → Outcome (StatusAggregator × ReturnCode × Buffer) → StatusAggregator
state_after a (returned r) = r.0
state_after a (thrown x) = a

module _ (m : ModuleLibraryHandler) where
  unfoldable pub step : StatusAggregator → Call → StatusAggregator
  step a (clear_device_call d) = (clear_device m a d).0
  step a (remove_call d) = (remove_device m a d).0
  step a (force_call d) = (force_aggregation_on_device m a d).0
  step a (forward_call d) = state_after a (get_command_for_forwarding m a d empty_buffer)
  step a (take_call d) = (get_aggregated_status m a empty_buffer d).0
  step a clear_all_call = (clear_all_devices m a).0
  step a run_posted_call = run_posted m a
  step a unset_call = unset_timeouted_message_ready a
  step a (add_status_call now status d) = (add_status_to_aggregator m now a status d).0
  step a (update_call command d) = (update_command m a command d).0
  step a (command_call status d) = state_after a (get_command m a status d empty_buffer)
  step a (tick_call now aborted d) = tick m now aborted a d

  unfoldable pub run : StatusAggregator → List Call → StatusAggregator
  run a [] = a
  run a (c ∷ cs) = run (step a c) cs
