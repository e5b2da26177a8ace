-- ===== src/StatusAggregator.antt =====
-- source/bringauto/modules/StatusAggregator.cpp: the statuses and commands of the devices of one
-- module. A method returns the new state with its result; every method holds `devicesMutex_` from
-- its start to its end, so it is one step. `erase` handlers that are posted to the io context wait
-- in `posted`, and `now` is the time in seconds at which a call runs.
pub mod Calls
pub mod Consistent
pub mod Messages
pub mod Isolation
pub mod Commands
pub mod Removal
pub mod Timeouts
use module_gateway.Common.{
  ℕ, suc, Bool, true, false, List, [], ◌∷◌, ◌++◌, Option, none, some, length, if◌then◌else◌,
}
use module_gateway.Common.Dict.{Dict, keys, find, contains, modify, try_emplace, erase, assign}
use module_gateway.Structures.Buffer.{Buffer, is_allocated}
use module_gateway.Structures.ReturnCode.{
  ReturnCode, count, ok, not_ok, device_not_supported, device_not_registered, no_message_available,
  command_invalid, is_ok, is_not_ok,
}
use module_gateway.Structures.Outcome.{Outcome, returned, thrown, out_of_range}
use module_gateway.Structures.Device.{DeviceIdentification, device_eq}
use module_gateway.Structures.Module.{ModuleLibraryHandler}
use module_gateway.Structures.ThreadTimer.{ends, expire, fires, rearm}
use module_gateway.Structures.DeviceState.{
  DeviceState, pop, new_state, set_status, set_status_and_reset_timer, set_default_command,
  enable_immediate_command_forwarding, consume_command, add_external_command,
}

pub record StatusAggregator : Type 0 where
  pub devices : Dict DeviceIdentification DeviceState
  pub device_timeouts : Dict DeviceIdentification ℕ
  pub timeouted_message_ready : Bool
  pub posted : List DeviceIdentification

unfoldable pub init : StatusAggregator
init = record { devices = []; device_timeouts = []; timeouted_message_ready = false; posted = [] }

-- while (not queue.empty()) queue.pop()
unfoldable pub pop_all : List Buffer → List Buffer
pop_all [] = []
pop_all (b ∷ q) = pop_all q

unfoldable pub clear_messages : DeviceState → DeviceState
clear_messages s = record s { aggregated_messages = pop_all s.aggregated_messages }

abbrev pub push_message : Buffer → DeviceState → DeviceState
push_message b s = record s { aggregated_messages = s.aggregated_messages ++ b ∷ [] }

abbrev pub push_status : DeviceState → DeviceState
push_status s = push_message s.status s

abbrev pub expire_timer : DeviceState → DeviceState
expire_timer s = record s { timer = expire s.timer }

abbrev pub rearm_timer : ℕ → DeviceState → DeviceState
rearm_timer now s = record s { timer = rearm now s.timer }

-- devices.at(device).aggregatedMessages(), where the device is known to be there.
unfoldable pub messages_of :
    DeviceIdentification → Dict DeviceIdentification DeviceState → List Buffer
messages_of d devices = elim (find device_eq d devices) [
  | none ↦ []
  | some s ↦ s.aggregated_messages
]

module _ (m : ModuleLibraryHandler) where
  unfoldable pub aggregate_status : DeviceState → Buffer → ℕ → Buffer
  aggregate_status s status device_type =
      let (rc, aggregated) = m.aggregate_status s.status status device_type in
      if is_ok rc then aggregated else s.status

  unfoldable pub aggregate_set_status : Buffer → ℕ → DeviceState → DeviceState
  aggregate_set_status status device_type s = set_status (aggregate_status s status device_type) s

  unfoldable pub aggregate_set_send_status : ℕ → Buffer → ℕ → DeviceState → DeviceState
  aggregate_set_send_status now status device_type s =
      let aggregated = aggregate_status s status device_type in
      push_message aggregated (set_status_and_reset_timer now aggregated s)

  unfoldable pub is_device_valid : StatusAggregator → DeviceIdentification → ReturnCode
  is_device_valid a d =
      if is_ok (m.is_device_type_supported d.device_type)
      then (if contains device_eq d a.devices then ok else not_ok)
      else not_ok

  unfoldable pub clear_device :
      StatusAggregator → DeviceIdentification → StatusAggregator × ReturnCode
  clear_device a d =
      if is_not_ok (is_device_valid a d)
      then (a, device_not_registered)
      else (record a { devices = modify device_eq d clear_messages a.devices }, ok)

  unfoldable pub clear_devices : List DeviceIdentification → StatusAggregator → StatusAggregator
  clear_devices [] a = a
  clear_devices (d ∷ ds) a = clear_devices ds (clear_device a d).0

  unfoldable pub clear_all_devices : StatusAggregator → StatusAggregator × ReturnCode
  clear_all_devices a = (clear_devices (keys a.devices) a, ok)

  unfoldable pub remove_device :
      StatusAggregator → DeviceIdentification → StatusAggregator × ReturnCode
  remove_device a d = if is_not_ok (is_device_valid a d) then (a, device_not_registered) else (
    let cleared = (clear_device a d).0 in record cleared { posted = cleared.posted ++ d ∷ [] },
    ok,
  )

  -- The io context runs the handler that was posted first.
  run_first : List DeviceIdentification → StatusAggregator → StatusAggregator
  run_first [] a = a
  run_first (d ∷ rest) a = record a { devices = erase device_eq d a.devices; posted = rest }

  unfoldable pub run_posted : StatusAggregator → StatusAggregator
  unfolding run_first
  run_posted a = run_first a.posted a

  unfoldable pub force_aggregation_on_device :
      StatusAggregator → DeviceIdentification → StatusAggregator × ReturnCode
  force_aggregation_on_device a d =
      let forced = modify device_eq d push_status a.devices in
      if is_not_ok (is_device_valid a d)
      then (a, device_not_registered)
      else (record a { devices = forced }, count (length (messages_of d forced)))

  -- The callback of a device's timer.
  unfoldable pub timeouted_force_aggregation :
      StatusAggregator → DeviceIdentification → StatusAggregator × ReturnCode
  timeouted_force_aggregation a d =
      force_aggregation_on_device
        (record a {
          timeouted_message_ready = true;
          device_timeouts = modify device_eq d suc (try_emplace device_eq d 0 a.device_timeouts);
        })
        d

  -- ThreadTimer::tick of the timer that a device owns, where a wait has ended: by a cancel, or by its
  -- time. A device that is gone has no timer.
  unfoldable pub tick : ℕ → Bool → StatusAggregator → DeviceIdentification → StatusAggregator
  tick now aborted a d = elim (find device_eq d a.devices) [
    | none ↦ a
    | some s ↦
        let expired = record a { devices = modify device_eq d expire_timer a.devices } in
        let forced = (timeouted_force_aggregation expired d).0 in
        if ends aborted s.timer
        then (if fires s.timer
            then record forced { devices = modify device_eq d (rearm_timer now) forced.devices }
            else expired)
        else a
  ]

  -- The branch of `add_status_to_aggregator` for a device that is not in the map.
  unfoldable pub register_device :
      ℕ → StatusAggregator → Buffer → DeviceIdentification → StatusAggregator × ReturnCode
  register_device now a status d =
      let (rc, command) = m.generate_first_command d.device_type in
      let added = try_emplace device_eq d (new_state now command status) a.devices in
      let forwarding =
        if is_ok (m.forward_command_on_receive d.device_type)
        then modify device_eq d enable_immediate_command_forwarding added
        else added in
      if is_ok rc
      then ((force_aggregation_on_device (record a { devices = forwarding }) d).0, count 1)
      else (a, command_invalid)

  -- The new state of a registered device.
  unfoldable pub receive_status : ℕ → Buffer → ℕ → DeviceState → DeviceState
  unfolding aggregate_set_send_status aggregate_set_status
  receive_status now status device_type s =
      if is_ok (m.send_status_condition s.status status device_type)
      then aggregate_set_send_status now status device_type s
      else aggregate_set_status status device_type s

  unfoldable pub add_status_to_aggregator :
      ℕ → StatusAggregator → Buffer → DeviceIdentification → StatusAggregator × ReturnCode
  unfolding register_device
  add_status_to_aggregator now a status d =
      let a' = record a { device_timeouts = assign device_eq d 0 a.device_timeouts } in
      let updated = modify device_eq d (receive_status now status d.device_type) a.devices in
      if is_not_ok (m.is_device_type_supported d.device_type)
      then (a, device_not_supported)
      else if contains device_eq d a.devices
      then (record a' { devices = updated }, count (length (messages_of d updated)))
      else register_device now a' status d

  -- `generated` is the caller's buffer, which an error leaves as it is.
  unfoldable pub get_aggregated_status :
      StatusAggregator → Buffer → DeviceIdentification → StatusAggregator × ReturnCode × Buffer
  get_aggregated_status a generated d =
      if is_not_ok (is_device_valid a d)
      then (a, device_not_registered, generated)
      else elim (messages_of d a.devices) [
        | [] ↦ (a, no_message_available, generated)
        | b ∷ q ↦ (
          record a {
            devices =
                modify device_eq d
                  (λ s. record s { aggregated_messages = pop s.aggregated_messages }) a.devices;
          },
          ok,
          b,
        )
      ]

  unfoldable pub get_unique_devices : StatusAggregator → List DeviceIdentification × ReturnCode
  get_unique_devices a = (keys a.devices, count (length a.devices))

  unfoldable pub update_command :
      StatusAggregator → Buffer → DeviceIdentification → StatusAggregator × ReturnCode
  update_command a command d =
      let added = modify device_eq d (λ s. (add_external_command command s).0) a.devices in
      if is_not_ok (m.is_device_type_supported d.device_type)
      then (a, device_not_supported)
      else if contains device_eq d a.devices
      then if is_allocated command
        then if is_not_ok (m.command_data_valid command d.device_type)
          then (a, command_invalid)
          else (record a { devices = added }, ok)
        else (a, command_invalid)
      else (a, device_not_registered)

  -- The end of `getCommandUnlocked`, for the device's state and the command that it consumed.
  unfoldable pub answer_command :
      Buffer → Buffer → ℕ → DeviceState × Option Buffer → DeviceState × ReturnCode × Buffer
  answer_command status command device_type (s, none) = (s, no_message_available, command)
  answer_command status command device_type (s, some current) =
      let (rc, generated) = m.generate_command status s.status current device_type in
      if is_ok rc
      then (set_default_command generated s, ok, generated)
      else (s, command_invalid, generated)

  -- `devices.at(device)` throws for a device that is not registered.
  unfoldable pub get_command :
      StatusAggregator
      → Buffer
      → DeviceIdentification
      → Buffer
      → Outcome (StatusAggregator × ReturnCode × Buffer)
  get_command a status d command =
      if is_not_ok (m.is_device_type_supported d.device_type)
      then returned (a, device_not_supported, command)
      else elim (find device_eq d a.devices) [
        | none ↦ thrown out_of_range
        | some s ↦
            let (s', rc, generated) =
              answer_command status command d.device_type (consume_command s) in
            returned (record a { devices = modify device_eq d (λ _. s') a.devices }, rc, generated)
      ]

  unfoldable pub get_command_for_forwarding :
      StatusAggregator
      → DeviceIdentification
      → Buffer
      → Outcome (StatusAggregator × ReturnCode × Buffer)
  get_command_for_forwarding a d command =
      if is_not_ok (is_device_valid a d)
      then returned (a, device_not_registered, command)
      else elim (find device_eq d a.devices) [
        | none ↦ thrown out_of_range
        | some s ↦ get_command a s.status d command
      ]

abbrev pub unset_timeouted_message_ready : StatusAggregator → StatusAggregator
unset_timeouted_message_ready a = record a { timeouted_message_ready = false }

unfoldable pub get_device_timeout_count : StatusAggregator → DeviceIdentification → ℕ
get_device_timeout_count a d = elim (find device_eq d a.device_timeouts) [ none ↦ 0 | some n ↦ n ]
