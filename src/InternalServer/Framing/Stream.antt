-- ===== src/InternalServer/Framing/Stream.antt =====
-- The same on the bytes of one receive alone, without a buffer and offsets.
use module_gateway.Common.{
  ℕ, zero, suc, ◌-◌, ◌<◌, ◌⊎◌, Bool, true, false, List, [], ◌++◌, Option, none, some, length, take,
  drop, ltb, ◌==◌, ◌&&◌, if◌then◌else◌, is_nil, ◌≡◌,
}
use module_gateway.Structures.Constants.{header}
use module_gateway.InternalServer.Framing.{Context, read_header, finish_message}

-- The size of the message at hand, and the bytes that follow its header.
unfoldable pub split_header : Context → List ℕ → ℕ × List ℕ
split_header c xs =
    if c.complete_message_size == 0
    then (read_header xs, drop header xs)
    else (c.complete_message_size, xs)

-- A message is at hand and not complete, or none is.
abbrev pub IsOpen : Context → Type 0
IsOpen c =
    ((c.complete_message_size ≡ 0) × (c.complete_message ≡ []))
    ⊎ (length c.complete_message < c.complete_message_size)

module _ {S : Type 0} (handle : S → List ℕ → S × Bool) where
  unfoldable pub feed : ℕ → S → Context → List ℕ → Option (S × Context × Bool)
  feed zero s c xs = none
  feed (suc fuel) s c xs =
      let (size, body) = split_header c xs in
      let k = size - length c.complete_message in
      let (s', c', accepted) = finish_message handle s size (c.complete_message ++ take k body) in
      let rest = feed fuel s' c' (drop k body) in
      if ltb (length xs) header && c.complete_message_size == 0
      then some (s, c, false)
      else if accepted
      then (if is_nil (drop k body) then some (s', c', true) else rest)
      else some (s', c', false)
