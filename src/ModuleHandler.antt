-- ===== src/ModuleHandler.antt =====
-- source/bringauto/modules/ModuleHandler.cpp: what the gateway does with a message of a device. A
-- handler works on the status aggregator of the device's module and on the two queues that it
-- fills; `now` is the time in seconds at which it runs.
pub mod Sparing
pub mod Draining
pub mod Asking
pub mod Answers
pub mod Disconnecting
pub mod Timeouted
pub mod Silence
pub mod Dispatch
pub mod Loops
use module_gateway.Common.{
  ℕ, zero, suc, Bool, true, false, List, [], ◌∷◌, ◌++◌, Option, none, some, ◌==◌, leb,
  if◌then◌else◌, is_nil, ◌≡◌, arith,
}
use module_gateway.Common.Dict.{KeyEq, Dict, find, modify}
use module_gateway.Structures.Buffer.{Buffer, empty_buffer}
use module_gateway.Structures.Constants.{status_aggregation_timeout_max_count}
use module_gateway.Structures.ReturnCode.{
  ReturnCode, ok, no_message_available, is_ok, is_not_ok, is_negative, is_below_one, rounds,
}
use module_gateway.Structures.Outcome.{Outcome, returned, ◌>>=◌}
use module_gateway.Structures.Device.{DeviceIdentification}
use module_gateway.Structures.Module.{ModuleLibraryHandler}
use module_gateway.Structures.Messages.{
  DeviceStatus, InternalClient, InternalClientMessage, ModuleHandlerMessage, ResponseType,
  device_status, device_connect, nothing, response_ok, module_not_supported,
  response_device_not_supported, connect_response, client_message, server_message,
  disconnect_device, create_command_message, create_status_message,
}
use module_gateway.StatusAggregator.Calls.{Call, run}
use module_gateway.StatusAggregator.{
  StatusAggregator, is_device_valid, force_aggregation_on_device, remove_device,
  add_status_to_aggregator, get_aggregated_status, get_unique_devices, get_command,
  get_command_for_forwarding, unset_timeouted_message_ready, get_device_timeout_count,
}

-- The status aggregator of one module, and the queues that all modules share.
pub record Exchange : Type 0 where
  pub aggregator : StatusAggregator
  pub to_internal : List ModuleHandlerMessage
  pub to_external : List InternalClientMessage

abbrev pub push_internal : ModuleHandlerMessage → Exchange → Exchange
push_internal m x = record x { to_internal = x.to_internal ++ m ∷ [] }

abbrev pub push_external : InternalClientMessage → Exchange → Exchange
push_external m x = record x { to_external = x.to_external ++ m ∷ [] }

-- constructBuffer of the data's size, with the data copied in.
abbrev pub status_buffer : List ℕ → Buffer
status_buffer bytes =
    if is_nil bytes then empty_buffer else record { has_data = true; bytes = bytes }

abbrev pub status_message : Bool → DeviceIdentification → Buffer → InternalClientMessage
status_message disconnected d b = client_message disconnected (create_status_message d b)

abbrev pub command_message : DeviceIdentification → Buffer → ModuleHandlerMessage
command_message d command = server_message false (create_command_message d command)

-- What other threads do to the aggregator between the calls of `handleStatus`, each of which holds
-- `devicesMutex_`: before `get_command`, and before `get_aggregated_status` when `n` more are to come.
pub record Others : Type 0 where
  pub before_command : List Call
  pub before_take : ℕ → List Call

abbrev pub no_others : Others
no_others = record { before_command = []; before_take = λ n. [] }

module _ (m : ModuleLibraryHandler) where
  abbrev pub disturb : List Call → Exchange → Exchange
  disturb cs x = record x { aggregator = run m x.aggregator cs }

  unfoldable pub send_aggregated_status : Bool → DeviceIdentification → Exchange → Exchange
  send_aggregated_status disconnected d x =
      let (a, rc, b) = get_aggregated_status m x.aggregator empty_buffer d in
      push_external (status_message disconnected d b) (record x { aggregator = a })

  -- while(rc > 0) { sendAggregatedStatus(...); rc--; }
  unfoldable pub send_statuses : (ℕ → List Call) → ℕ → DeviceIdentification → Exchange → Exchange
  send_statuses o zero d x = x
  send_statuses o (suc n) d x =
      send_statuses o n d (send_aggregated_status false d (disturb (o n) x))

  -- The rest of `handleStatus` after `get_command`.
  unfoldable pub answer_status :
      (ℕ → List Call)
      → ℕ
      → DeviceIdentification
      → Exchange
      → StatusAggregator × ReturnCode × Buffer
      → Exchange
  answer_status o n d x (a, rc, command) =
      let taken = record x { aggregator = a } in
      if is_ok rc
      then send_statuses o n d (push_internal (command_message d command) taken)
      else elim rc [
        | no_message_available ↦
            send_statuses o n d (push_internal (command_message d empty_buffer) taken)
        | _ ↦ taken
      ]

  unfoldable pub handle_status_among : Others → ℕ → Exchange → DeviceStatus → Outcome Exchange
  handle_status_among o now x status =
      let d = status.device in
      let b = status_buffer status.status_data in
      let (a, rc) = add_status_to_aggregator m now x.aggregator b d in
      if is_not_ok (m.status_data_valid b d.device_type)
      then returned x
      else if is_negative rc
      then returned (record x { aggregator = a })
      else get_command m (run m a o.before_command) b d empty_buffer >>= λ r.
          returned (answer_status o.before_take (rounds rc) d x r)

  -- `handleStatus` where no other thread comes between.
  unfoldable pub handle_status : ℕ → Exchange → DeviceStatus → Outcome Exchange
  unfolding handle_status_among
  handle_status now x status = handle_status_among no_others now x status

  unfoldable pub handle_disconnect : Exchange → DeviceIdentification → Exchange
  handle_disconnect x d =
      let (forced, rc) = force_aggregation_on_device m x.aggregator d in
      let sent = send_aggregated_status true d (record x { aggregator = forced }) in
      if is_not_ok (is_device_valid m x.aggregator d)
      then x
      else if is_below_one rc
      then record x { aggregator = forced }
      else record sent { aggregator = (remove_device m sent.aggregator d).0 }

  unfoldable pub send_connect_response : ResponseType → DeviceIdentification → Exchange → Exchange
  send_connect_response t d x = push_internal (server_message false (connect_response d t)) x

  unfoldable pub handle_connect : Exchange → DeviceIdentification → Exchange
  handle_connect x d =
      if is_not_ok (m.is_device_type_supported d.device_type)
      then send_connect_response response_device_not_supported d x
      else send_connect_response response_ok d x

  unfoldable pub handle_command_forward : Exchange → DeviceIdentification → Outcome Exchange
  handle_command_forward x d =
      get_command_for_forwarding m x.aggregator d empty_buffer >>= λ (a, rc, command).
      (let taken = record x { aggregator = a } in
        if is_ok rc
        then returned (push_internal (command_message d command) taken)
        else returned taken)
