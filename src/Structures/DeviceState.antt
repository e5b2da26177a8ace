-- ===== src/Structures/DeviceState.antt =====
-- source/bringauto/structures/StatusAggregatorDeviceState.cpp. A queue is a list, its front the
-- head.
use module_gateway.Common.{
  ℕ, Bool, true, false, List, [], ◌∷◌, ◌++◌, Option, none, some, length, ltb, if◌then◌else◌,
}
use module_gateway.Structures.Buffer.{Buffer}
use module_gateway.Structures.ReturnCode.{ReturnCode, ok, not_ok}
use module_gateway.Structures.Constants.{max_external_commands}
use module_gateway.Structures.ThreadTimer.{ThreadTimer, started, restart}

pub record DeviceState : Type 0 where
  pub timer : ThreadTimer
  pub aggregated_messages : List Buffer
  pub status : Buffer
  pub default_command : Buffer
  pub external_commands : List Buffer
  pub forward_command_immediately : Bool

-- queue.pop()
abbrev pub pop {ℓ} : {A : Type ℓ} → List A → List A
pop [] = []
pop (x ∷ q) = q

unfoldable pub new_state : ℕ → Buffer → Buffer → DeviceState
unfolding started
new_state now command status = record {
  timer = started now;
  aggregated_messages = [];
  status = status;
  default_command = command;
  external_commands = [];
  forward_command_immediately = false;
}

abbrev pub set_status : Buffer → DeviceState → DeviceState
set_status b s = record s { status = b }

unfoldable pub set_status_and_reset_timer : ℕ → Buffer → DeviceState → DeviceState
unfolding restart
set_status_and_reset_timer now b s = record s { status = b; timer = restart now s.timer }

abbrev pub set_default_command : Buffer → DeviceState → DeviceState
set_default_command c s = record s { default_command = c }

abbrev pub enable_immediate_command_forwarding : DeviceState → DeviceState
enable_immediate_command_forwarding s = record s { forward_command_immediately = true }

consume_from : List Buffer → DeviceState → DeviceState × Option Buffer
consume_from (c ∷ q) s = (record s { default_command = c; external_commands = q }, some c)
consume_from [] s = if s.forward_command_immediately then (s, none) else (s, some s.default_command)

unfoldable pub consume_command : DeviceState → DeviceState × Option Buffer
unfolding consume_from
consume_command s = consume_from s.external_commands s

unfoldable pub add_external_command : Buffer → DeviceState → DeviceState × ReturnCode
add_external_command c s =
    let q = s.external_commands ++ c ∷ [] in
    if ltb max_external_commands (length q)
    then (record s { external_commands = pop q }, not_ok)
    else (record s { external_commands = q }, ok)
