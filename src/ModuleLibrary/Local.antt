-- ===== src/ModuleLibrary/Local.antt =====
-- source/bringauto/modules/ModuleManagerLibraryHandlerLocal.cpp: the handler that calls a library in
-- its own process. What the functions of the library do, and whether it has one, are arguments;
-- allocating and freeing the buffers is left out.
use module_gateway.Common.{ℕ, String, Bool, List, [], ◌∷◌, Option, none, some, if◌then◌else◌}
use module_gateway.Structures.Buffer.{Buffer, empty_buffer, is_allocated}
use module_gateway.Structures.Outcome.{
  Outcome, returned, thrown, ◌>>=◌, buffer_not_allocated, runtime_error,
}
use module_gateway.Structures.ReturnCode.{ReturnCode, not_ok, is_ok}

-- The functions that dlsym finds. One that fills a buffer gets a zeroed one, and answers with what
-- it has made of it.
pub record Library : Type 0 where
  pub get_module_number : ℕ
  pub is_device_type_supported : ℕ → ReturnCode
  pub generate_first_command : ℕ → ReturnCode × Buffer
  pub status_data_valid : Buffer → ℕ → ReturnCode
  pub command_data_valid : Buffer → ℕ → ReturnCode
  pub send_status_condition : Buffer → Buffer → ℕ → ReturnCode
  pub aggregate_status : Buffer → Buffer → ℕ → ReturnCode × Buffer
  pub generate_command : Buffer → Buffer → Buffer → ℕ → ReturnCode × Buffer
  pub aggregate_error : Buffer → Buffer → ℕ → ReturnCode × Buffer
  pub forward_command_on_receive : Option (ℕ → ReturnCode)

abbrev pub required_functions : List String
required_functions =
    "is_device_type_supported" ∷ "get_module_number" ∷ "generate_first_command"
    ∷ "status_data_valid" ∷ "command_data_valid" ∷ "send_status_condition" ∷ "aggregate_status"
    ∷ "generate_command" ∷ "aggregate_error" ∷ "allocate" ∷ "deallocate" ∷ []

unfoldable pub check_functions : (String → Bool) → List String → Library → Outcome Library
check_functions has_function [] l = returned l
check_functions has_function (name ∷ names) l =
    let rest = check_functions has_function names l in
    if has_function name then rest else thrown runtime_error

unfoldable pub load_library : Option Library → (String → Bool) → Outcome Library
load_library none has_function = thrown runtime_error
load_library (some l) has_function = check_functions has_function required_functions l

-- The C struct that the library gets for a buffer.
unfoldable pub raw_buffer : Buffer → Buffer
raw_buffer b = if is_allocated b then b else empty_buffer

unfoldable pub construct_buffer_by_take_ownership : Buffer → Outcome Buffer
construct_buffer_by_take_ownership b =
    if b.has_data then returned b else thrown buffer_not_allocated

-- The end of a method that fills a buffer: `otherwise` is the buffer where the code is not OK.
unfoldable pub take_answer : ReturnCode × Buffer → Buffer → Outcome (ReturnCode × Buffer)
take_answer (code, filled) otherwise =
    if is_ok code
    then construct_buffer_by_take_ownership filled >>= (λ b. returned (code, b))
    else returned (code, otherwise)

module _ (l : Library) where
  unfoldable pub send_status_condition : Buffer → Buffer → ℕ → ReturnCode
  send_status_condition current_status new_status device_type =
      l.send_status_condition (raw_buffer current_status) (raw_buffer new_status) device_type

  unfoldable pub generate_command : Buffer → Buffer → Buffer → ℕ → Outcome (ReturnCode × Buffer)
  generate_command new_status current_status current_command device_type =
      take_answer
        (l.generate_command (raw_buffer new_status) (raw_buffer current_status)
          (raw_buffer current_command) device_type)
        empty_buffer

  unfoldable pub aggregate_status : Buffer → Buffer → ℕ → Outcome (ReturnCode × Buffer)
  aggregate_status current_status new_status device_type =
      take_answer
        (l.aggregate_status (raw_buffer current_status) (raw_buffer new_status) device_type)
        current_status

  unfoldable pub aggregate_error : Buffer → Buffer → ℕ → Outcome (ReturnCode × Buffer)
  aggregate_error current_error_message status device_type =
      take_answer
        (l.aggregate_error (raw_buffer current_error_message) (raw_buffer status) device_type)
        empty_buffer

  unfoldable pub generate_first_command : ℕ → Outcome (ReturnCode × Buffer)
  generate_first_command device_type =
      take_answer (l.generate_first_command device_type) empty_buffer

  unfoldable pub status_data_valid : Buffer → ℕ → ReturnCode
  status_data_valid status device_type = l.status_data_valid (raw_buffer status) device_type

  unfoldable pub command_data_valid : Buffer → ℕ → ReturnCode
  command_data_valid command device_type = l.command_data_valid (raw_buffer command) device_type

  unfoldable pub forward_command_on_receive : ℕ → ReturnCode
  forward_command_on_receive device_type = elim l.forward_command_on_receive [
    | none ↦ not_ok
    | some forward ↦ forward device_type
  ]
