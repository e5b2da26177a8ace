-- ===== src/InternalServer/Framing.antt =====
-- `InternalServer::processBufferData`: a stream of messages, each behind a header of four bytes
-- that holds its length, arrives in receives of arbitrary sizes. `handle` is `handleMessage` on the
-- server's state `S`; the receive buffer is the list of its bytes, and the host is little-endian.
pub mod Stream
pub mod Refines
pub mod Chunks
pub mod Frames
pub mod Total
use module_gateway.Common.{
  ℕ, zero, suc, ◌+◌, ◌-◌, ◌*◌, ◌^◌, Bool, true, false, List, [], ◌∷◌, ◌++◌, Option, none, some,
  length, take, drop, min, ltb, leb, ◌==◌, ◌&&◌, if◌then◌else◌,
}
use module_gateway.Structures.Constants.{header, buffer_length}

-- connContext, without the receive buffer.
pub record Context : Type 0 where
  pub complete_message_size : ℕ
  pub complete_message : List ℕ

abbrev pub no_message : Context
no_message = record { complete_message_size = 0; complete_message = [] }

-- memcpy of the header into a uint32_t.
unfoldable pub read_header : List ℕ → ℕ
read_header (a ∷ b ∷ c ∷ d ∷ rest) = a + 256 * b + 65536 * c + 16777216 * d
read_header _ = 0

-- a - b on size_t.
unfoldable pub size_sub : ℕ → ℕ → ℕ
size_sub a b = if leb b a then a - b else a + 2 ^ 64 - b

-- Where the loop stands after it has read the header, if one was due.
pub record Cursor : Type 0 where
  pub size : ℕ
  pub data_begin : ℕ
  pub bytes_left : ℕ

unfoldable pub read_size : Context → List ℕ → ℕ → ℕ → Cursor
read_size c buffer transferred offset =
    if c.complete_message_size == 0
    then record {
      size = read_header (drop offset buffer);
      data_begin = offset + header;
      bytes_left = transferred - header;
    }
    else record { size = c.complete_message_size; data_begin = offset; bytes_left = transferred }

module _ {S : Type 0} (handle : S → List ℕ → S × Bool) where
  -- The message with the bytes that came in; a complete one is handled.
  unfoldable pub finish_message : S → ℕ → List ℕ → S × Context × Bool
  finish_message s size message =
      let (s', accepted) = handle s message in
      if size == length message
      then (if accepted
          then (s', no_message, true)
          else (s', record { complete_message_size = size; complete_message = message }, false))
      else (s, record { complete_message_size = size; complete_message = message }, true)

  -- `none`: the fuel ran out.
  unfoldable pub process_buffer_data :
      ℕ → S → Context → List ℕ → ℕ → ℕ → Option (S × Context × Bool)
  process_buffer_data zero s c buffer transferred offset = none
  process_buffer_data (suc fuel) s c buffer transferred offset =
      let cursor = read_size c buffer transferred offset in
      let message_bytes_left =
        min (size_sub cursor.size (length c.complete_message)) cursor.bytes_left in
      let message = c.complete_message ++ take message_bytes_left (drop cursor.data_begin buffer) in
      let (s', c', accepted) = finish_message s cursor.size message in
      let left = cursor.bytes_left - message_bytes_left in
      let rest = process_buffer_data fuel s' c' buffer left (offset + (transferred - left)) in
      if ltb buffer_length (offset + transferred)
      then some (s, c, false)
      else if ltb transferred header && c.complete_message_size == 0
      then some (s, c, false)
      else if c.complete_message_size == 0 && ltb transferred header
      then some (s, record c { complete_message_size = cursor.size }, false)
      else if accepted
      then (if ltb cursor.bytes_left message_bytes_left
          then some (s', c', false)
          else if ltb transferred left
          then some (s', c', false)
          else if left == 0
          then some (s', c', true)
          else rest)
      else some (s', c', false)
