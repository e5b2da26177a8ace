-- ===== src/ModuleLibrary/Async.antt =====
-- source/bringauto/modules/ModuleManagerLibraryHandlerAsync.cpp: the handler of a library that runs in
-- a process of its own. What the process answers to a call, within the time that the client of
-- Aeron waits, and what the operating system says of the process are arguments.
pub mod Agreeing
pub mod Loading
use module_gateway.Common.{
  ℕ, Bool, true, not, List, [], ◌∷◌, Option, none, some, is_nil, ◌+◌, leb, if◌then◌else◌,
}
use module_gateway.Structures.Buffer.{Buffer, empty_buffer}
use module_gateway.Structures.Outcome.{Outcome, returned, thrown, runtime_error}
use module_gateway.Structures.ReturnCode.{ReturnCode, not_ok, is_ok}
use module_gateway.ModuleLibrary.Local.{raw_buffer}

-- callFunc of each function: `none` where no answer came in time.
pub record ModuleBinary : Type 0 where
  pub get_module_number_async : Option ℕ
  pub is_device_type_supported_async : ℕ → Option ReturnCode
  pub generate_first_command_async : ℕ → Option (ReturnCode × List ℕ)
  pub status_data_valid_async : Buffer → ℕ → Option ReturnCode
  pub command_data_valid_async : Buffer → ℕ → Option ReturnCode
  pub send_status_condition_async : Buffer → Buffer → ℕ → Option ReturnCode
  pub aggregate_status_async : Buffer → Buffer → ℕ → Option (ReturnCode × List ℕ)
  pub generate_command_async : Buffer → Buffer → Buffer → ℕ → Option (ReturnCode × List ℕ)
  pub aggregate_error_async : Buffer → Buffer → ℕ → Option (ReturnCode × List ℕ)

-- A round of the loop that waits for the process: whether it answers, whether it runs if it does not,
-- and the time of the clock in milliseconds then.
pub record Poll : Type 0 where
  pub answers : Bool
  pub running : Bool
  pub now : ℕ

abbrev pub aeron_client_startup_timeout : ℕ
aeron_client_startup_timeout = 10000

abbrev pub module_binary_poll_interval : ℕ
module_binary_poll_interval = 10

-- The loop over the rounds to come: `none` if they are not enough for it to end. A
-- ModuleBinaryException is a std::runtime_error.
unfoldable pub await_ready : ℕ → List Poll → Option (Outcome (Unit {0}))
await_ready deadline [] = none
await_ready deadline (p ∷ ps) =
    let rest = await_ready deadline ps in
    if p.answers
    then some (returned tt)
    else if not p.running
    then some (thrown runtime_error)
    else if leb deadline p.now
    then some (thrown runtime_error)
    else rest

-- `loadLibrary`, with whether the process could be started, and the time then.
unfoldable pub load_library : Bool → ℕ → List Poll → Option (Outcome (Unit {0}))
load_library starts now ps =
    if starts
    then await_ready (now + aeron_client_startup_timeout) ps
    else some (thrown runtime_error)

abbrev pub value_or_not_ok : Option ReturnCode → ReturnCode
value_or_not_ok none = not_ok
value_or_not_ok (some code) = code

-- constructBuffer(std::span<const uint8_t>)
unfoldable pub construct_buffer : List ℕ → Buffer
construct_buffer bytes =
    if is_nil bytes then empty_buffer else record { has_data = true; bytes = bytes }

-- The end of a method that fills a buffer: `otherwise` is the buffer where there is no answer, or its
-- code is not OK.
unfoldable pub take_reply : Option (ReturnCode × List ℕ) → Buffer → ReturnCode × Buffer
take_reply none otherwise = (not_ok, otherwise)
take_reply (some (code, bytes)) otherwise =
    (code, if is_ok code then construct_buffer bytes else otherwise)

module _ (b : ModuleBinary) where
  -- `none` stands for NOT_OK, which is no number of a module.
  unfoldable pub get_module_number : Option ℕ
  get_module_number = b.get_module_number_async

  unfoldable pub is_device_type_supported : ℕ → ReturnCode
  is_device_type_supported device_type =
      value_or_not_ok (b.is_device_type_supported_async device_type)

  unfoldable pub send_status_condition : Buffer → Buffer → ℕ → ReturnCode
  send_status_condition current_status new_status device_type = value_or_not_ok (
      b.send_status_condition_async (raw_buffer current_status) (raw_buffer new_status) device_type)

  unfoldable pub generate_command : Buffer → Buffer → Buffer → ℕ → ReturnCode × Buffer
  generate_command new_status current_status current_command device_type =
      take_reply
        (b.generate_command_async (raw_buffer new_status) (raw_buffer current_status)
          (raw_buffer current_command) device_type)
        empty_buffer

  unfoldable pub aggregate_status : Buffer → Buffer → ℕ → ReturnCode × Buffer
  aggregate_status current_status new_status device_type =
      take_reply
        (b.aggregate_status_async (raw_buffer current_status) (raw_buffer new_status) device_type)
        current_status

  unfoldable pub aggregate_error : Buffer → Buffer → ℕ → ReturnCode × Buffer
  aggregate_error current_error_message status device_type =
      take_reply
        (b.aggregate_error_async (raw_buffer current_error_message) (raw_buffer status) device_type)
        empty_buffer

  unfoldable pub generate_first_command : ℕ → ReturnCode × Buffer
  generate_first_command device_type =
      take_reply (b.generate_first_command_async device_type) empty_buffer

  unfoldable pub status_data_valid : Buffer → ℕ → ReturnCode
  status_data_valid status device_type =
      value_or_not_ok (b.status_data_valid_async (raw_buffer status) device_type)

  unfoldable pub command_data_valid : Buffer → ℕ → ReturnCode
  command_data_valid command device_type =
      value_or_not_ok (b.command_data_valid_async (raw_buffer command) device_type)

  unfoldable pub forward_command_on_receive : ℕ → ReturnCode
  forward_command_on_receive device_type = not_ok
