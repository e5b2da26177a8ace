-- ===== src/ModuleLibrary/Implements.antt =====
-- The handler of ModuleManagerLibraryHandlerLocal.cpp and the interface
-- IModuleManagerLibraryHandler that the other components use.
use module_gateway.Common.{ℕ, true, if◌then◌else◌, ◌≡◌, arith, Bool-cases, inl, inr}
use module_gateway.Structures.Buffer.{Buffer, empty_buffer}
use module_gateway.Structures.Module.{ModuleLibraryHandler}
use module_gateway.Structures.Outcome.{returned}
use module_gateway.Structures.ReturnCode.{ReturnCode, is_ok}
use module_gateway.ModuleLibrary.Local
use module_gateway.ModuleLibrary.Local.{
  Library, raw_buffer, construct_buffer_by_take_ownership, take_answer, generate_command,
  aggregate_status, aggregate_error, generate_first_command,
}

-- The answer of the interface: a code, and a buffer, which is the given one if the code is not OK.
abbrev pub answer_or : ReturnCode × Buffer → Buffer → ReturnCode × Buffer
answer_or (code, filled) otherwise = if is_ok code then (code, filled) else (code, otherwise)

abbrev pub handler_of : Library → ModuleLibraryHandler
handler_of l = record {
  module_number = l.get_module_number;
  is_device_type_supported = l.is_device_type_supported;
  send_status_condition = Local.send_status_condition l;
  generate_command = λ new current command t.
      answer_or (l.generate_command (raw_buffer new) (raw_buffer current) (raw_buffer command) t)
        empty_buffer;
  aggregate_status = λ current new t.
      answer_or (l.aggregate_status (raw_buffer current) (raw_buffer new) t) current;
  aggregate_error = λ current status t.
      answer_or (l.aggregate_error (raw_buffer current) (raw_buffer status) t) empty_buffer;
  generate_first_command = λ t. answer_or (l.generate_first_command t) empty_buffer;
  status_data_valid = Local.status_data_valid l;
  command_data_valid = Local.command_data_valid l;
  forward_command_on_receive = Local.forward_command_on_receive l;
}

-- The code is OK only where the buffer was allocated.
abbrev pub IsFilled : ReturnCode × Buffer → Type 0
IsFilled (code, filled) = is_ok code ≡ true → filled.has_data ≡ true

take_answer-IsFilled :
    (a : ReturnCode × Buffer) (otherwise : Buffer)
    → IsFilled a
    → take_answer a otherwise ≡ returned (answer_or a otherwise)
unfolding take_answer construct_buffer_by_take_ownership
take_answer-IsFilled (code, filled) otherwise f = elim (Bool-cases (is_ok code)) [
  | inl e ↦ ground (arith, e, f e)
  | inr e ↦ ground (arith, e)
]

-- Where every function of the library that answers OK has allocated its buffer, no call of the local
-- handler throws, and each that fills a buffer returns what the interface answers: the library's
-- buffer for OK; otherwise an empty one, and for aggregate_status the current status.
pub calls-handler_of :
    (l : Library)
    → ((n c k : Buffer) (t : ℕ) → IsFilled (l.generate_command n c k t))
    → ((c n : Buffer) (t : ℕ) → IsFilled (l.aggregate_status c n t))
    → ((c s : Buffer) (t : ℕ) → IsFilled (l.aggregate_error c s t))
    → ((t : ℕ) → IsFilled (l.generate_first_command t))
    → (b c d : Buffer) (t : ℕ)
    → (generate_command l b c d t ≡ returned ((handler_of l).generate_command b c d t))
      × (aggregate_status l b c t ≡ returned ((handler_of l).aggregate_status b c t))
      × (aggregate_error l b c t ≡ returned ((handler_of l).aggregate_error b c t))
      × (generate_first_command l t ≡ returned ((handler_of l).generate_first_command t))
unfolding generate_command aggregate_status aggregate_error generate_first_command
calls-handler_of l g s e f b c d t = (
  take_answer-IsFilled _ empty_buffer (g (raw_buffer b) (raw_buffer c) (raw_buffer d) t),
  take_answer-IsFilled _ b (s (raw_buffer b) (raw_buffer c) t),
  take_answer-IsFilled _ empty_buffer (e (raw_buffer b) (raw_buffer c) t),
  take_answer-IsFilled _ empty_buffer (f t),
)
