-- ===== src/StatusAggregator/Consistent.antt =====
-- What holds of the aggregator's maps between two calls.
pub mod Steps
use module_gateway.Common.{
  ℕ, suc, ◌≤◌, ◌+◌, Bool, true, false, List, [], ◌∷◌, ◌++◌, Option, none, some, length, ◌≡◌, refl,
  arith, length-append, Option-cases, Bool-cases, inl, inr, is_nil, if◌then◌else◌,
}
use module_gateway.Common.Dict.{
  Dict, find, contains, modify, try_emplace, erase, assign, Distinct, keys, Entries,
}
use module_gateway.Common.Dict.Laws.{
  modify-Entries, try_emplace-Entries, erase-Entries, find-Entries, modify-Distinct,
  try_emplace-Distinct, erase-Distinct, contains-modify, contains-try_emplace, contains-erase_le,
  contains_congr, contains-assign,
}
use module_gateway.Structures.Buffer.{Buffer, empty_buffer}
use module_gateway.Structures.ReturnCode.{ReturnCode, is_ok}
use module_gateway.Structures.Device.{DeviceIdentification, device_eq, same_device}
use module_gateway.Structures.Module.{ModuleLibraryHandler}
use module_gateway.Structures.Constants.{max_external_commands}
use module_gateway.Structures.ThreadTimer.{IsRunning, started, restart, rearm, fires, ends, expire}
use module_gateway.Structures.DeviceState.{
  DeviceState, pop, new_state, set_status_and_reset_timer, consume_command, add_external_command,
  enable_immediate_command_forwarding,
}
use module_gateway.StatusAggregator.{
  StatusAggregator, init, clear_device, clear_devices, clear_all_devices, remove_device, run_posted,
  run_first, tick, force_aggregation_on_device, timeouted_force_aggregation, register_device,
  receive_status, add_status_to_aggregator, get_aggregated_status, update_command, get_command,
  answer_command, get_command_for_forwarding, clear_messages, push_status, expire_timer,
  rearm_timer,
}
use module_gateway.StatusAggregator.Calls.{
  Call, state_after, step, run, clear_device_call, remove_call, force_call, forward_call, take_call,
  clear_all_call, run_posted_call, unset_call, add_status_call, update_call, command_call,
  tick_call,
}

abbrev pub IsGood : DeviceState → Type 0
IsGood s = (length s.external_commands ≤ max_external_commands) × IsRunning s.timer

length-pop : (q : List Buffer) → length (pop q) + 1 ≤ length q + (if is_nil q then 1 else 0)
length-pop [] = omega arith
length-pop (b ∷ q) = omega arith

abbrev pub Devices : Type 0
Devices = Dict DeviceIdentification DeviceState

-- A device is registered once, has a timeout count, holds at most `max_external_commands`
-- commands, and its timer runs.
pub record IsConsistent (devices : Devices) (timeouts : Dict DeviceIdentification ℕ) : Type 0 where
  pub distinct : Distinct device_eq devices
  pub good : Entries (λ _ s. IsGood s) devices
  pub timed :
      (d : DeviceIdentification)
      → contains device_eq d devices ≡ true
      → contains device_eq d timeouts ≡ true

abbrev pub Consistent : StatusAggregator → Type 0
Consistent a = IsConsistent a.devices a.device_timeouts

module _ {devices : Devices} {timeouts : Dict DeviceIdentification ℕ} where
  modify-IsConsistent :
      (d : DeviceIdentification) (f : DeviceState → DeviceState)
      → ((s : DeviceState) → IsGood s → IsGood (f s))
      → IsConsistent devices timeouts
      → IsConsistent (modify device_eq d f devices) timeouts
  modify-IsConsistent d f keep v = record {
    distinct = modify-Distinct device_eq d f devices v.distinct;
    good = modify-Entries device_eq (λ _ s. IsGood s) d f (λ _ s. keep s) devices v.good;
    timed = λ j h. v.timed j (rw contains-modify at h);
  }

  try_emplace-IsConsistent :
      (d : DeviceIdentification) (s : DeviceState)
      → IsGood s
      → contains device_eq d timeouts ≡ true
      → IsConsistent devices timeouts
      → IsConsistent (try_emplace device_eq d s devices) timeouts
  try_emplace-IsConsistent d s g t v = record {
    distinct = try_emplace-Distinct device_eq d s devices v.distinct;
    good = try_emplace-Entries device_eq (λ _ s. IsGood s) d s g devices v.good;
    timed = λ j h. ground (
      arith,
      contains-try_emplace device_eq j d s devices,
      contains_congr device_eq d j timeouts,
      v.timed j,
    );
  }

  erase-IsConsistent :
      (d : DeviceIdentification)
      → IsConsistent devices timeouts
      → IsConsistent (erase device_eq d devices) timeouts
  erase-IsConsistent d v = record {
    distinct = erase-Distinct device_eq d devices v.distinct;
    good = erase-Entries device_eq (λ _ s. IsGood s) d devices v.good;
    timed = λ j h. ground (arith, contains-erase_le device_eq j d devices, v.timed j);
  }

  assign-IsConsistent :
      (d : DeviceIdentification) (n : ℕ)
      → IsConsistent devices timeouts
      → IsConsistent devices (assign device_eq d n timeouts)
  assign-IsConsistent d n v = record {
    distinct = v.distinct;
    good = v.good;
    timed = λ j h. ground (arith, contains-assign device_eq j d n timeouts, v.timed j);
  }

  count-IsConsistent :
      (d : DeviceIdentification)
      → IsConsistent devices timeouts
      → IsConsistent devices (modify device_eq d suc (try_emplace device_eq d 0 timeouts))
  count-IsConsistent d v = record {
    distinct = v.distinct;
    good = v.good;
    timed = λ j h. ground (
      arith,
      contains-modify device_eq j d suc (try_emplace device_eq d 0 timeouts),
      contains-try_emplace device_eq j d 0 timeouts,
      v.timed j,
    );
  }

new_state-IsGood : (now : ℕ) (command status : Buffer) → IsGood (new_state now command status)
unfolding new_state
new_state-IsGood now command status = ground arith

receive_status-IsGood :
    (m : ModuleLibraryHandler) (now : ℕ) (status : Buffer) (t : ℕ) (s : DeviceState)
    → IsGood s
    → IsGood (receive_status m now status t s)
unfolding receive_status set_status_and_reset_timer
receive_status-IsGood m now status t s g = ground arith

add_external_command-IsGood :
    (c : Buffer) (s : DeviceState) → IsGood s → IsGood (add_external_command c s).0
unfolding add_external_command
add_external_command-IsGood c s g =
    ground (
      arith,
      length-append s.external_commands (c ∷ []),
      length-pop (s.external_commands ++ c ∷ []),
    )

consume_command-IsGood : (s : DeviceState) → IsGood s → IsGood (consume_command s).0
unfolding consume_command
consume_command-IsGood s g = ground arith

answer_command-IsGood :
    (m : ModuleLibraryHandler) (status command : Buffer) (t : ℕ) (s : DeviceState)
    (c : Option Buffer)
    → IsGood s
    → IsGood (answer_command m status command t (s, c)).0
unfolding answer_command
answer_command-IsGood m status command t s c g = ground arith

-- A tick that is carried out: the pending wait has ended, and the timer is armed again.
rearm-IsGood :
    (now : ℕ) (s : DeviceState)
    → IsGood s
    → IsGood (rearm_timer now (expire_timer s))
      × IsGood (rearm_timer now (push_status (expire_timer s)))
unfolding rearm expire
rearm-IsGood now s g = (ground arith, ground arith)

modify-modify :
    (d : DeviceIdentification) (f g : DeviceState → DeviceState) (devices : Devices)
    → modify device_eq d f (modify device_eq d g devices)
      ≡ modify device_eq d (λ s. f (g s)) devices
unfolding modify
modify-modify d f g [] = refl
modify-modify d f g ((i, s) ∷ devices) = ground (arith, modify-modify d f g devices)
