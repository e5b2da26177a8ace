-- ===== src/Tests/Handler.antt =====
-- The theorems on the module handler, applied to one device of the sample library.
use module_gateway.Common.{
  ◌+◌, true, false, List, some, leb, map, if◌then◌else◌, [], ◌∷◌, ◌++◌, ◌≡◌, refl, arith,
}
use module_gateway.Common.Dict.{assign, find, contains, modify, try_emplace}
use module_gateway.Structures.Buffer.{Buffer, empty_buffer}
use module_gateway.Structures.ReturnCode.{ReturnCode}
use module_gateway.Structures.Outcome.{returned}
use module_gateway.Structures.Device.{DeviceIdentification, same_device}
use module_gateway.Structures.ThreadTimer.{started}
use module_gateway.Structures.DeviceState.{DeviceState, new_state}
use module_gateway.Structures.Messages.{
  DeviceStatus, InternalClientMessage, client_message, device_connect, server_message,
  connect_response, response_ok, disconnect_device,
}
use module_gateway.StatusAggregator.{
  StatusAggregator, init, messages_of, is_device_valid, add_status_to_aggregator, get_command,
  register_device, force_aggregation_on_device, push_status, get_device_timeout_count,
  get_unique_devices, tick, timeouted_force_aggregation, get_aggregated_status, update_command,
}
use module_gateway.ModuleHandler.{Exchange, status_buffer, status_message, handle_disconnect}
use module_gateway.ModuleHandler.Loops.{check_all, check_all-total}
use module_gateway.Common.Dict.{Entries}
use module_gateway.ModuleHandler.Timeouted.{
  check_device, check_device-sends, check_timeouted_messages, check_devices, drain,
  disconnect_silent,
}
use module_gateway.ModuleHandler.Silence.{
  Moment, timer_moment, check_moment, call_moment, step_silent, run_silent,
  check_timeouted_messages-disconnects,
}
use module_gateway.StatusAggregator.Calls
use module_gateway.StatusAggregator.Calls.{
  update_call, add_status_call, run_posted_call, command_call, take_call, run,
}
use module_gateway.ExternalClient.SentMessages.{any_same}
use module_gateway.ModuleHandler.Dispatch.{ModuleHandler}
use module_gateway.Structures.Constants.{
  status_aggregation_timeout_max_count, status_aggregation_timeout,
}
use module_gateway.Structures.ThreadTimer.{fires, ends, expire, rearm}
use module_gateway.ModuleHandler.{Others, handle_status_among}
use module_gateway.ModuleHandler.Answers.{IsAnswered, handle_status_among-answers}
use module_gateway.ModuleHandler.Disconnecting.{handle_disconnect-sends}
use module_gateway.Tests.{button, lamp, buffer_of, sample_library}

abbrev start : Exchange
start = record { aggregator = init; to_internal = []; to_external = [] }

abbrev sample_status : DeviceStatus
sample_status = record { device = button; status_data = 1 ∷ [] }

-- Another device's thread sends statuses and asks for a command while the status is handled, and
-- a posted handler may run.
abbrev lamp_calls : Others
lamp_calls = record {
  before_command = add_status_call 0 (buffer_of (4 ∷ [])) lamp ∷ run_posted_call ∷ [];
  before_take = λ n. command_call (buffer_of (5 ∷ [])) lamp ∷ take_call lamp ∷ [];
}

handle_status_among-answers_example :
    let b = status_buffer (1 ∷ []) in
    let added = add_status_to_aggregator sample_library 0 init b button in
    (y : Exchange) × (a' : StatusAggregator) × (rc : ReturnCode) × (command : Buffer)
    × (handle_status_among sample_library lamp_calls 0 start sample_status ≡ returned y)
    × (get_command sample_library
          (run sample_library added.0 lamp_calls.before_command)
          b
          button
          empty_buffer
        ≡ returned (a', rc, command))
    × IsAnswered sample_library button added.0 start y rc command
unfolding init add_status_to_aggregator register_device force_aggregation_on_device is_device_valid
    messages_of new_state started contains try_emplace same_device modify find any_same
handle_status_among-answers_example =
    handle_status_among-answers sample_library lamp_calls 0 start sample_status 1 refl refl refl
      refl (refl, (refl, tt)) (λ k. (refl, (refl, tt)))

-- The device's first status still waits.
abbrev one_waiting : Exchange
one_waiting = record {
  aggregator = (add_status_to_aggregator sample_library 0 init (buffer_of (1 ∷ [])) button).0;
  to_internal = [];
  to_external = [];
}

abbrev waiting_state : DeviceState
waiting_state = push_status (new_state 0 (buffer_of (7 ∷ [])) (buffer_of (1 ∷ [])))

handle_disconnect-sends_example :
    let y = handle_disconnect sample_library one_waiting button in
    (y.to_external ≡ [] ++ status_message true button (buffer_of (1 ∷ [])) ∷ [])
    × (y.to_internal ≡ [])
    × (messages_of button y.aggregator.devices ≡ [])
    × (y.aggregator.posted ≡ one_waiting.aggregator.posted ++ button ∷ [])
unfolding init add_status_to_aggregator register_device force_aggregation_on_device is_device_valid
    messages_of new_state started contains try_emplace same_device modify find
handle_disconnect-sends_example =
    handle_disconnect-sends sample_library one_waiting button waiting_state (buffer_of (1 ∷ []))
      (buffer_of (1 ∷ []) ∷ []) refl refl refl

check_device-sends_example :
    (y : Exchange) × (check_device sample_library 5 button one_waiting ≡ some y)
    × (y.to_external
        ≡ []
          ++ map (status_message false button) (messages_of button one_waiting.aggregator.devices))
    × (y.to_internal ≡ (
        if leb status_aggregation_timeout_max_count
          (get_device_timeout_count one_waiting.aggregator button)
        then [] ++ disconnect_device button ∷ []
        else []))
    × (messages_of button y.aggregator.devices ≡ [])
unfolding init add_status_to_aggregator register_device force_aggregation_on_device is_device_valid
    messages_of new_state started contains try_emplace same_device modify find
check_device-sends_example =
    check_device-sends sample_library 5 button one_waiting refl (omega arith)

-- A first end of the timer, a check, a command for another device, and a second end.
abbrev quiet_moments : List Moment
quiet_moments =
    timer_moment 15 ∷ check_moment 5 ∷ call_moment (update_call (buffer_of (9 ∷ [])) lamp) ∷ []

abbrev quiet_state : DeviceState
quiet_state = record waiting_state {
  timer = record { ended = false; expires_at = 15 + status_aggregation_timeout; waiting = true };
  aggregated_messages = [];
}

abbrev quiet : Exchange
quiet = record {
  aggregator = record one_waiting.aggregator {
    devices = (button, quiet_state) ∷ [];
    device_timeouts = (button, 1) ∷ [];
  };
  to_internal = [];
  to_external =
      status_message false button (buffer_of (1 ∷ []))
      ∷ status_message false button (buffer_of (1 ∷ []))
      ∷ [];
}

check_timeouted_messages-disconnects_example :
    let rung = record quiet { aggregator = tick sample_library 30 false quiet.aggregator button } in
    (z : Exchange) × (orders : List DeviceIdentification) × (check_timeouted_messages sample_library
        5 rung
      ≡ some z)
    × (z.to_internal ≡ [] ++ map disconnect_device orders)
    × (any_same button orders ≡ true)
    × (z.aggregator.timeouted_message_ready ≡ false)
unfolding init add_status_to_aggregator register_device force_aggregation_on_device is_device_valid
    messages_of new_state started contains try_emplace same_device modify find tick
    timeouted_force_aggregation fires ends expire rearm get_unique_devices step_silent run_silent
    check_timeouted_messages check_devices check_device drain disconnect_silent
    get_device_timeout_count get_aggregated_status assign Calls.step update_command
check_timeouted_messages-disconnects_example =
    check_timeouted_messages-disconnects sample_library button quiet_moments 30 5 one_waiting quiet
      refl (tt, (tt, (refl, tt))) refl (omega arith) ((refl, omega arith), tt)

abbrev waiting_gateway : ModuleHandler
waiting_gateway = record {
  modules = (1, record { library = sample_library; aggregator = one_waiting.aggregator }) ∷ [];
  to_internal = [];
  to_external = [];
}

check_all-total_example :
    (x : ModuleHandler) × (check_all 5 waiting_gateway ≡ some x)
    × Entries (λ key m. m.aggregator.timeouted_message_ready ≡ false) x.modules
unfolding init add_status_to_aggregator register_device force_aggregation_on_device is_device_valid
    messages_of new_state started contains try_emplace same_device modify find get_unique_devices
check_all-total_example = check_all-total 5 waiting_gateway (((refl, omega arith), tt), tt)

-- The gateway has the sample module only, under the number 1.
abbrev gateway : ModuleHandler
gateway = record {
  modules = (1, record { library = sample_library; aggregator = init }) ∷ [];
  to_internal = [];
  to_external = [];
}

abbrev connect_message : InternalClientMessage
connect_message = client_message false (device_connect button)

abbrev connected : ModuleHandler
connected = record gateway {
  to_internal = server_message false (connect_response button response_ok) ∷ [];
}

abbrev stranger : InternalClientMessage
stranger = client_message false (device_connect (record button { module_number = 3 }))
