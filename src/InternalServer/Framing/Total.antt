-- ===== src/InternalServer/Framing/Total.antt =====
-- The recursion of processBufferData ends.
use module_gateway.Common.{
  ℕ, ◌+◌, ◌≤◌, ◌<◌, Bool, false, some, List, ◌++◌, length, take, drop, length-take, length-drop,
  none, All, inl, refl, ap, ◌≡◌, ◌≢◌, ◌∙◌, sym, arith,
}
use module_gateway.Structures.Constants.{buffer_length, header}
use module_gateway.InternalServer.Framing.{Context, no_message, process_buffer_data}
use module_gateway.InternalServer.Framing.Stream.{IsOpen, feed}
use module_gateway.InternalServer.Framing.Refines.{received, process-feed}
use module_gateway.InternalServer.Framing.Chunks.{feed_total}
use module_gateway.InternalServer.Framing.Frames.{
  Fits, stream, handle_all, outcome, feed_cut_header,
}

module _ {S : Type 0} (handle : S → List ℕ → S × Bool) where
  -- On a receive buffer of at most `buffer_length` bytes, with an open context, the loop has a result
  -- if there is more fuel than bytes received.
  pub process_buffer_data-total :
      (fuel : ℕ) (s : S) (c : Context) (buffer : List ℕ) (n offset : ℕ)
      → IsOpen c
      → offset + n ≤ length buffer
      → length buffer ≤ buffer_length
      → n < fuel
      → process_buffer_data handle fuel s c buffer n offset ≢ none
  process_buffer_data-total fuel s c buffer n offset o fits small enough ended =
      feed_total handle fuel s c (received buffer n offset) o
        (omega (arith, length-take n (drop offset buffer), length-drop offset buffer))
        (sym (process-feed handle fuel s c buffer n offset o fits small) ∙ ended)

  -- A receive that starts with no message pending and ends within a header, after whole messages, is
  -- refused: the messages before the header are handled, up to the first that is refused.
  pub process_buffer_data-cut_header :
      (fuel : ℕ) (s : S) (buffer : List ℕ) (n : ℕ) (ms : List (List ℕ)) (xs : List ℕ)
      → n ≤ length buffer
      → length buffer ≤ buffer_length
      → n < fuel
      → take n buffer ≡ stream ms ++ xs
      → All Fits ms
      → 0 < length xs
      → length xs < header
      → outcome handle (process_buffer_data handle fuel s no_message buffer n 0)
        ≡ some ((handle_all handle s ms).0, false)
  process_buffer_data-cut_header fuel s buffer n ms xs fits small enough same h p q =
      let short : length (stream ms ++ xs) < fuel =
        rw (← same) (omega (arith, length-take n buffer)) in
      ap (outcome handle)
        (process-feed handle fuel s no_message buffer n 0 (inl (refl, refl)) (omega arith) small)
      ∙ ap (λ (t : List ℕ). outcome handle (feed handle fuel s no_message t)) same
      ∙ feed_cut_header handle fuel s ms xs h p q short
