-- ===== src/Structures/ReturnCode.antt =====
-- The `int` results of the fleet protocol's interfaces. Its headers are no part of the repository:
-- the model relies on `OK` being 0, on the error codes being negative and distinct, and on counts
-- not passing INT_MAX, so an `int` result is a count or one of the codes that the source names.
use module_gateway.Common.{ℕ, zero, suc, Bool, true, false}

pub data ReturnCode : Type 0 where
  count : ℕ → ReturnCode
  not_ok device_not_supported device_not_registered no_message_available : ReturnCode
  command_invalid status_invalid : ReturnCode
  -- Any other negative code that a module's library may answer with.
  other_error : ℕ → ReturnCode

abbrev pub ok : ReturnCode
ok = count 0

-- rc == OK
abbrev pub is_ok : ReturnCode → Bool
is_ok (count zero) = true
is_ok _ = false

-- rc == NOT_OK
abbrev pub is_not_ok : ReturnCode → Bool
is_not_ok not_ok = true
is_not_ok _ = false

-- rc < 0
abbrev pub is_negative : ReturnCode → Bool
is_negative (count n) = false
is_negative _ = true

-- rc < 1
abbrev pub is_below_one : ReturnCode → Bool
is_below_one (count (suc n)) = false
is_below_one _ = true

-- The rounds of `while (rc > 0) { ...; rc--; }`.
abbrev pub rounds : ReturnCode → ℕ
rounds (count n) = n
rounds _ = 0
