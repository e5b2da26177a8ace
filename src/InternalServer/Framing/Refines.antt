-- ===== src/InternalServer/Framing/Refines.antt =====
-- The loop over the receive buffer does what `feed` does on the bytes that were received.
use module_gateway.Common.{
  ℕ, zero, suc, ◌+◌, ◌-◌, ◌≤◌, ◌<◌, inl, inr, Bool, true, false, List, [], ◌∷◌, ◌++◌, length, take,
  drop, min, ltb, ◌==◌, ◌&&◌, is_nil, ◌≡◌, refl, sym, ap, ◌∙◌, arith, take-take, drop-take,
  drop-drop, length-take, length-drop, length-append, is_nil_iff_length, Bool-cases,
}
use module_gateway.Structures.Constants.{header, buffer_length}
use module_gateway.InternalServer.Framing.{
  Context, read_header, size_sub, read_size, Cursor, finish_message, process_buffer_data,
}
use module_gateway.InternalServer.Framing.Stream.{split_header, IsOpen, feed}

-- The bytes that one call of the loop is about.
abbrev pub received : List ℕ → ℕ → ℕ → List ℕ
received buffer transferred offset = take transferred (drop offset buffer)

read_header-take : (n : ℕ) (xs : List ℕ) → header ≤ n → read_header (take n xs) ≡ read_header xs
unfolding read_header
read_header-take zero xs h = absurd (omega arith)
read_header-take (suc zero) xs h = absurd (omega arith)
read_header-take (suc (suc zero)) xs h = absurd (omega arith)
read_header-take (suc (suc (suc zero))) xs h = absurd (omega arith)
read_header-take (suc (suc (suc (suc n)))) [] h = refl
read_header-take (suc (suc (suc (suc n)))) (a ∷ []) h = refl
read_header-take (suc (suc (suc (suc n)))) (a ∷ b ∷ []) h = refl
read_header-take (suc (suc (suc (suc n)))) (a ∷ b ∷ c ∷ []) h = refl
read_header-take (suc (suc (suc (suc n)))) (a ∷ b ∷ c ∷ d ∷ xs) h = refl

module _ (c : Context) (buffer : List ℕ) (n offset : ℕ) (fits : offset + n ≤ length buffer) where
  length-received : length (received buffer n offset) ≡ n
  length-received = omega (arith, length-take n (drop offset buffer), length-drop offset buffer)

  abbrev cursor : Cursor
  cursor = read_size c buffer n offset

  module _ (whole : (ltb n header && c.complete_message_size == 0) ≡ false) where
    split_eq :
        split_header c (received buffer n offset)
        ≡ (cursor.size, take cursor.bytes_left (drop cursor.data_begin buffer))
    unfolding split_header read_size
    split_eq = ground (
      arith,
      read_header-take n (drop offset buffer),
      drop-take header n (drop offset buffer),
      drop-drop offset header buffer,
    )

    cursor_end : cursor.data_begin + cursor.bytes_left ≡ offset + n
    unfolding read_size
    cursor_end = ground arith

    cursor_le : cursor.bytes_left ≤ n
    unfolding read_size
    cursor_le = ground arith

    size_sub_eq :
        IsOpen c
        → size_sub cursor.size (length c.complete_message) ≡ cursor.size - length c.complete_message
    unfolding read_size size_sub
    size_sub_eq open_message = ground arith

message_le :
    (c : Context) (buffer : List ℕ) (n offset : ℕ)
    → IsOpen c
    → length c.complete_message ≤ (read_size c buffer n offset).size
unfolding read_size
message_le c buffer n offset o = ground arith

abbrev rest_of : Context → List ℕ → ℕ → ℕ → ℕ
rest_of c buffer n offset =
    let cur = read_size c buffer n offset in
    cur.bytes_left - min (size_sub cur.size (length c.complete_message)) cur.bytes_left

-- The bytes after the message at hand, where there are any.
rest_eq :
    (c : Context) (buffer : List ℕ) (n offset : ℕ)
    → IsOpen c
    → offset + n ≤ length buffer
    → (ltb n header && c.complete_message_size == 0) ≡ false
    → let cur = read_size c buffer n offset in
      let k = cur.size - length c.complete_message in
      let body = take cur.bytes_left (drop cur.data_begin buffer) in
      (take
          (min (size_sub cur.size (length c.complete_message)) cur.bytes_left)
          (drop cur.data_begin buffer)
        ≡ take k body)
      × (is_nil (drop k body) ≡ (rest_of c buffer n offset == 0))
      × (0 < rest_of c buffer n offset
          → drop k body
            ≡ received buffer
                (rest_of c buffer n offset)
                (offset + (n - rest_of c buffer n offset)))
      × (length c.complete_message + length (take k body) ≤ cur.size)
rest_eq c buffer n offset o fits whole =
    let cur = read_size c buffer n offset in
    let k = cur.size - length c.complete_message in
    let tail = drop cur.data_begin buffer in
    let left = rest_of c buffer n offset in
    let sub = size_sub_eq c buffer n offset fits whole o in
    let ends = cursor_end c buffer n offset fits whole in
    let below = cursor_le c buffer n offset fits whole in
    let shorter = drop-take k cur.bytes_left tail in
    let size_left : cur.bytes_left - k ≡ left = omega arith in
    let reach : length tail ≡ length buffer - cur.data_begin = length-drop cur.data_begin buffer in
    (
      ap (λ t. take (min t cur.bytes_left) tail) sub ∙ sym (take-take k cur.bytes_left tail),
      ground (
        arith,
        is_nil_iff_length (drop k (take cur.bytes_left tail)),
        length-drop k (take cur.bytes_left tail),
        length-take cur.bytes_left tail,
      ),
      (λ some_left.
          let start : cur.data_begin + k ≡ offset + (n - left) = omega arith in
          shorter
          ∙ ap (λ t. take t (drop k tail)) size_left
          ∙ ap (take left) (drop-drop cur.data_begin k buffer ∙ ap (λ t. drop t buffer) start)),
      omega (arith, message_le c buffer n offset o, length-take k (take cur.bytes_left tail)),
    )

module _ {S : Type 0} (handle : S → List ℕ → S × Bool) where
  -- What an accepted call leaves is an open context again.
  pub finish_message-IsOpen :
      (s : S) (size : ℕ) (message : List ℕ)
      → length message ≤ size
      → (finish_message handle s size message).2 ≡ true
      → IsOpen (finish_message handle s size message).1
  unfolding finish_message
  finish_message-IsOpen s size message h r = ground arith

  -- On a receive buffer of at most `buffer_length` bytes, and with an open context, the loop does
  -- to the server, the context and the connection what `feed` does on the bytes received, whatever
  -- the fuel.
  pub process-feed :
      (fuel : ℕ) (s : S) (c : Context) (buffer : List ℕ) (n offset : ℕ)
      → IsOpen c
      → offset + n ≤ length buffer
      → length buffer ≤ buffer_length
      → process_buffer_data handle fuel s c buffer n offset
        ≡ feed handle fuel s c (received buffer n offset)
  unfolding process_buffer_data feed
  process-feed zero s c buffer n offset o fits small = refl
  process-feed (suc fuel) s c buffer n offset o fits small =
      elim (Bool-cases (ltb n header && c.complete_message_size == 0)) [
        | inl short ↦ ground (arith, length-received c buffer n offset fits)
        | inr whole ↦
            let cur = read_size c buffer n offset in
            let k = cur.size - length c.complete_message in
            let body = take cur.bytes_left (drop cur.data_begin buffer) in
            let message = c.complete_message ++ take k body in
            let left = rest_of c buffer n offset in
            let (taken, ends, rest, bound) = rest_eq c buffer n offset o fits whole in
            ground (
              arith,
              length-received c buffer n offset fits,
              split_eq c buffer n offset fits whole,
              cursor_le c buffer n offset fits whole,
              length-append c.complete_message (take k body),
              finish_message-IsOpen s cur.size message,
              process-feed fuel (finish_message handle s cur.size message).0
                  (finish_message handle s cur.size message).1 buffer left (offset + (n - left)),
            )
      ]
