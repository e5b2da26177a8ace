-- ===== src/Structures/Buffer.antt =====
-- include/bringauto/modules/Buffer.hpp. A buffer is the raw C struct: whether its data pointer is
-- set, and the bytes that `size_in_bytes` counts. Who frees the memory is left out.
use module_gateway.Common.{ℕ, Bool, false, List, [], ◌&&◌, not, is_nil}

pub record Buffer : Type 0 where
  pub has_data : Bool
  pub bytes : List ℕ

-- Buffer {}
abbrev pub empty_buffer : Buffer
empty_buffer = record { has_data = false; bytes = [] }

unfoldable pub is_allocated : Buffer → Bool
is_allocated b = b.has_data && not (is_nil b.bytes)

unfoldable pub is_empty : Buffer → Bool
is_empty b = is_nil b.bytes
