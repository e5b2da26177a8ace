-- ===== src/ModuleLibrary/Async/Agreeing.antt =====
-- The two handlers of a library: the one in the gateway's process and the one in a process of its own.
use module_gateway.Common.{ℕ, true, List, some, ◌≡◌, refl, arith, Bool-cases, inl, inr}
use module_gateway.Structures.Buffer.{Buffer, empty_buffer, is_allocated}
use module_gateway.Structures.Outcome.{returned}
use module_gateway.Structures.ReturnCode.{ReturnCode, not_ok, is_ok}
use module_gateway.ModuleLibrary.Local
use module_gateway.ModuleLibrary.Local.{
  Library, raw_buffer, take_answer, construct_buffer_by_take_ownership,
}
use module_gateway.ModuleLibrary.Async
use module_gateway.ModuleLibrary.Async.{ModuleBinary, take_reply, construct_buffer}

-- A process that answers each call in time, with what the library does: the code and the bytes of the
-- buffer.
abbrev pub reply_of : ReturnCode × Buffer → ReturnCode × List ℕ
reply_of (code, b) = (code, b.bytes)

abbrev pub binary_of : Library → ModuleBinary
binary_of l = record {
  get_module_number_async = some l.get_module_number;
  is_device_type_supported_async = λ t. some (l.is_device_type_supported t);
  generate_first_command_async = λ t. some (reply_of (l.generate_first_command t));
  status_data_valid_async = λ s t. some (l.status_data_valid s t);
  command_data_valid_async = λ c t. some (l.command_data_valid c t);
  send_status_condition_async = λ c n t. some (l.send_status_condition c n t);
  aggregate_status_async = λ c n t. some (reply_of (l.aggregate_status c n t));
  generate_command_async = λ n c k t. some (reply_of (l.generate_command n c k t));
  aggregate_error_async = λ c s t. some (reply_of (l.aggregate_error c s t));
}

-- The code is OK only where the buffer was allocated.
abbrev pub IsAllocated : ReturnCode × Buffer → Type 0
IsAllocated (code, filled) = is_ok code ≡ true → is_allocated filled ≡ true

take_reply-IsAllocated :
    (a : ReturnCode × Buffer) (otherwise : Buffer)
    → IsAllocated a
    → take_answer a otherwise ≡ returned (take_reply (some (reply_of a)) otherwise)
unfolding take_answer take_reply construct_buffer construct_buffer_by_take_ownership is_allocated
take_reply-IsAllocated (code, filled) otherwise f = elim (Bool-cases (is_ok code)) [
  | inl e ↦ ground (arith, e, f e)
  | inr e ↦ ground (arith, e)
]

-- A library in a process of its own, which answers every call in time, is to the gateway what it is in
-- the gateway's process, where each function that answers OK has allocated a buffer that is not empty:
-- each call that fills a buffer or checks a status or a command gives the same code and the same
-- buffer, the same device types are supported, the module's number is the same, and none throws. But its
-- own forward_command_on_receive is not asked: commands are not forwarded at once.
pub handlers-binary_of :
    (l : Library)
    → ((n c k : Buffer) (t : ℕ) → IsAllocated (l.generate_command n c k t))
    → ((c n : Buffer) (t : ℕ) → IsAllocated (l.aggregate_status c n t))
    → ((c s : Buffer) (t : ℕ) → IsAllocated (l.aggregate_error c s t))
    → ((t : ℕ) → IsAllocated (l.generate_first_command t))
    → (b c d : Buffer) (t : ℕ)
    → let p = binary_of l in
      (Local.generate_command l b c d t ≡ returned (Async.generate_command p b c d t))
      × (Local.aggregate_status l b c t ≡ returned (Async.aggregate_status p b c t))
      × (Local.aggregate_error l b c t ≡ returned (Async.aggregate_error p b c t))
      × (Local.generate_first_command l t ≡ returned (Async.generate_first_command p t))
      × (Local.send_status_condition l b c t ≡ Async.send_status_condition p b c t)
      × (Local.status_data_valid l b t ≡ Async.status_data_valid p b t)
      × (Local.command_data_valid l b t ≡ Async.command_data_valid p b t)
      × (l.is_device_type_supported t ≡ Async.is_device_type_supported p t)
      × (some l.get_module_number ≡ Async.get_module_number p)
      × (Async.forward_command_on_receive p t ≡ not_ok)
unfolding Local.generate_command Local.aggregate_status Local.aggregate_error
    Local.generate_first_command Local.send_status_condition Local.status_data_valid
    Local.command_data_valid Async.generate_command Async.aggregate_status Async.aggregate_error
    Async.generate_first_command Async.send_status_condition Async.status_data_valid
    Async.command_data_valid Async.forward_command_on_receive Async.is_device_type_supported
    Async.get_module_number
handlers-binary_of l g s e f b c d t = (
  take_reply-IsAllocated _ empty_buffer (g (raw_buffer b) (raw_buffer c) (raw_buffer d) t),
  take_reply-IsAllocated _ b (s (raw_buffer b) (raw_buffer c) t),
  take_reply-IsAllocated _ empty_buffer (e (raw_buffer b) (raw_buffer c) t),
  take_reply-IsAllocated _ empty_buffer (f t),
  refl,
  refl,
  refl,
  refl,
  refl,
  refl,
)
