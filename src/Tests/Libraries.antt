-- ===== src/Tests/Libraries.antt =====
-- The theorems on the handlers of libraries, applied to a library that answers with every kind of code.
use module_gateway.Common.{
  ℕ, zero, suc, ◌+◌, true, false, List, [], ◌∷◌, none, some, ◌≡◌, refl, arith,
}
use module_gateway.Structures.Buffer.{empty_buffer, is_allocated}
use module_gateway.Structures.Outcome.{returned}
use module_gateway.Structures.ReturnCode.{not_ok, ok}
use module_gateway.ModuleLibrary.Local.{
  Library, aggregate_error, aggregate_status, generate_command, generate_first_command,
}
use module_gateway.ModuleLibrary.Local
use module_gateway.ModuleLibrary.Async
use module_gateway.ModuleLibrary.Async.{Poll}
use module_gateway.ModuleLibrary.Async.Agreeing.{binary_of, handlers-binary_of}
use module_gateway.Tests.{buffer_of}

abbrev local_library : Library
local_library = record {
  get_module_number = 1;
  is_device_type_supported = λ t. ok;
  generate_first_command = λ t. (ok, buffer_of (7 ∷ []));
  status_data_valid = λ status t. ok;
  command_data_valid = λ command t. ok;
  send_status_condition = λ last next t. ok;
  aggregate_status = λ last next t. (not_ok, empty_buffer);
  generate_command = λ next last command t. (ok, buffer_of (8 ∷ []));
  aggregate_error = λ error status t. (not_ok, empty_buffer);
  forward_command_on_receive = none;
}

handlers-binary_of_example :
    let p = binary_of local_library in
    (Local.generate_command local_library empty_buffer empty_buffer empty_buffer 3
      ≡ returned (Async.generate_command p empty_buffer empty_buffer empty_buffer 3))
    × (Local.aggregate_status local_library empty_buffer empty_buffer 3
        ≡ returned (Async.aggregate_status p empty_buffer empty_buffer 3))
    × (Local.aggregate_error local_library empty_buffer empty_buffer 3
        ≡ returned (Async.aggregate_error p empty_buffer empty_buffer 3))
    × (Local.generate_first_command local_library 3 ≡ returned (Async.generate_first_command p 3))
    × (Local.send_status_condition local_library empty_buffer empty_buffer 3
        ≡ Async.send_status_condition p empty_buffer empty_buffer 3)
    × (Local.status_data_valid local_library empty_buffer 3
        ≡ Async.status_data_valid p empty_buffer 3)
    × (Local.command_data_valid local_library empty_buffer 3
        ≡ Async.command_data_valid p empty_buffer 3)
    × (local_library.is_device_type_supported 3 ≡ Async.is_device_type_supported p 3)
    × (some local_library.get_module_number ≡ Async.get_module_number p)
    × (Async.forward_command_on_receive p 3 ≡ not_ok)
unfolding is_allocated
handlers-binary_of_example =
    handlers-binary_of local_library (λ n c k t e. refl) (λ c n t e. ground arith)
      (λ c s t e. ground arith) (λ t e. refl) empty_buffer empty_buffer empty_buffer 3

-- A process that runs and does not answer.
unfoldable polls_of : ℕ → ℕ → List Poll
polls_of zero now = []
polls_of (suc n) now =
    record { answers = false; running = true; now = now + 10 } ∷ polls_of n (now + 10)
