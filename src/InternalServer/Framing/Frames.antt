-- ===== src/InternalServer/Framing/Frames.antt =====
-- Messages behind their headers, in receives of any sizes: what the server handles of them. The
-- encoding is that of `InternalServer::sendResponse`, which the clients use too.
use mathlib.Core.List.{append_assoc, append-nil}
use module_gateway.Common.{
  ℕ, zero, suc, ◌/◌, ◌%◌, ◌^◌, ◌≤◌, ◌<◌, inl, Bool, true, false, List, [], ◌∷◌, ◌++◌, Option, none,
  some, length, take, drop, if◌then◌else◌, is_nil, All, ◌≡◌, refl, sym, subst, ◌∙◌, arith,
  length-take, length-append, take_all, drop_all, is_nil_iff_length, take-append_le, drop-append_le,
}
use module_gateway.Structures.Constants.{header, buffer_length}
use module_gateway.InternalServer.Framing.{
  Context, no_message, read_header, finish_message, process_buffer_data,
}
use module_gateway.InternalServer.Framing.Stream.{split_header, IsOpen, feed}
use module_gateway.InternalServer.Framing.Refines.{process-feed}
use module_gateway.InternalServer.Framing.Chunks.{feed_fuel, feed-append, feed-IsOpen}

-- The header, as it lies in memory, and the message.
unfoldable pub encode : List ℕ → List ℕ
encode m = let n = length m in n % 256 ∷ n / 256 % 256 ∷ n / 65536 % 256 ∷ n / 16777216 % 256 ∷ m

abbrev pub Fits : List ℕ → Type 0
Fits m = length m < 2 ^ 32

read_header-encode : (m rest : List ℕ) → Fits m → read_header (encode m ++ rest) ≡ length m
unfolding read_header encode
read_header-encode m rest h = omega arith

abbrev pub stream : List (List ℕ) → List ℕ
stream [] = []
stream (m ∷ ms) = encode m ++ stream ms

module _ {S : Type 0} (handle : S → List ℕ → S × Bool) where
  -- The messages in order, up to the first that is refused.
  abbrev pub handle_all : S → List (List ℕ) → S × Bool
  handle_all s [] = (s, true)
  handle_all s (m ∷ ms) =
      let (s', accepted) = handle s m in
      let rest = handle_all s' ms in if accepted then rest else (s', false)

  -- What a receive does to the server, and whether it is accepted.
  abbrev pub outcome : Option (S × Context × Bool) → Option (S × Bool)
  outcome none = none
  outcome (some (s, c, accepted)) = some (s, accepted)

  feed_frame :
      (f : ℕ) (s : S) (m rest : List ℕ)
      → Fits m
      → feed handle (suc f) s no_message (encode m ++ rest) ≡ (
          if (handle s m).1
          then (if is_nil rest
              then some ((handle s m).0, no_message, true)
              else feed handle f (handle s m).0 no_message rest)
          else some (
            (handle s m).0,
            record { complete_message_size = length m; complete_message = m },
            false,
          ))
  unfolding feed split_header finish_message
  feed_frame f s m rest h = ground (
    arith,
    read_header-encode m rest h,
    encode_body,
    take-append_le (length m) m rest,
    take_all (length m) m,
    drop-append_le (length m) m rest,
    drop_all (length m) m,
    encode_length,
  )
    where
      encode_body : drop header (encode m ++ rest) ≡ m ++ rest
      encode_body = unfold encode in refl

      encode_length : header ≤ length (encode m ++ rest)
      encode_length = unfold encode in omega arith

  encode_cons : (m rest : List ℕ) → is_nil (encode m ++ rest) ≡ false
  unfolding encode
  encode_cons m rest = refl

  encode_grows : (m rest : List ℕ) → length rest < length (encode m ++ rest)
  unfolding encode
  encode_grows m rest = omega (arith, length-append m rest)

  feed-stream :
      (f : ℕ) (s : S) (m : List ℕ) (ms : List (List ℕ))
      → All Fits (m ∷ ms)
      → length (stream (m ∷ ms)) < f
      → outcome (feed handle f s no_message (stream (m ∷ ms))) ≡ some (handle_all s (m ∷ ms))
  feed-stream zero s m ms h l = absurd (omega arith)
  feed-stream (suc f) s m [] h l = ground (arith, feed_frame f s m [] h.0)
  feed-stream (suc f) s m (m' ∷ ms) h l = ground (
    arith,
    feed_frame f s m (stream (m' ∷ ms)) h.0,
    encode_cons m' (stream ms),
    encode_grows m (stream (m' ∷ ms)),
    feed-stream f (handle s m).0 m' ms h.1,
  )

  -- A receive that ends within a header, after whole messages, is refused: the messages before it
  -- are handled, up to the first that is refused, and the connection is dropped.
  pub feed_cut_header :
      (f : ℕ) (s : S) (ms : List (List ℕ)) (xs : List ℕ)
      → All Fits ms
      → 0 < length xs
      → length xs < header
      → length (stream ms ++ xs) < f
      → outcome (feed handle f s no_message (stream ms ++ xs)) ≡ some ((handle_all s ms).0, false)
  feed_cut_header zero s ms xs h p q l = absurd (omega arith)
  feed_cut_header (suc f) s [] xs h p q l = unfold feed in ground arith
  feed_cut_header (suc f) s (m ∷ ms) xs h p q l = ground (
    arith,
    append_assoc (encode m) (stream ms) xs,
    feed_frame f s m (stream ms ++ xs) h.0,
    is_nil_iff_length (stream ms ++ xs),
    length-append (stream ms) xs,
    encode_grows m (stream ms ++ xs),
    feed_cut_header f (handle s m).0 ms xs h.1,
  )

  -- The receives of one connection: the buffer and the number of bytes that came in. Each one is
  -- handled by a call at offset 0, until one is refused.
  unfoldable pub receive_all : S → Context → List (List ℕ × ℕ) → Option (S × Context × Bool)
  receive_all s c [] = some (s, c, true)
  receive_all s c ((buffer, n) ∷ rs) = elim (process_buffer_data handle (suc n) s c buffer n 0) [
    | none ↦ none
    | some (s', c', accepted) ↦ if accepted then receive_all s' c' rs else some (s', c', false)
  ]

  abbrev pub bytes_of : List (List ℕ × ℕ) → List ℕ
  bytes_of [] = []
  bytes_of ((buffer, n) ∷ rs) = take n buffer ++ bytes_of rs

  -- Some bytes came in, and they fit the buffer.
  abbrev pub IsReceive : List ℕ × ℕ → Type 0
  IsReceive (buffer, n) = (0 < n) × (n ≤ length buffer) × (length buffer ≤ buffer_length)

  receive_as_feed :
      (s : S) (c : Context) (buffer : List ℕ) (n : ℕ)
      → IsOpen c
      → IsReceive (buffer, n)
      → process_buffer_data handle (suc n) s c buffer n 0
        ≡ feed handle (suc (length (take n buffer))) s c (take n buffer)
  receive_as_feed s c buffer n o v =
      process-feed handle (suc n) s c buffer n 0 o (omega (arith, v.1)) v.2
      ∙ feed_fuel handle (suc n) (suc (length (take n buffer))) s c (take n buffer) o
          (omega (arith, length-take n buffer)) (omega arith)

  -- The first receive was accepted, if all were.
  first_accepted :
      (s : S) (c : Context) (buffer : List ℕ) (n : ℕ) (rs : List (List ℕ × ℕ)) (s' : S)
      (c' : Context)
      → receive_all s c ((buffer, n) ∷ rs) ≡ some (s', c', true)
      → (s1 : S) × (c1 : Context) × (process_buffer_data handle (suc n) s c buffer n 0
          ≡ some (s1, c1, true))
        × (receive_all s1 c1 rs ≡ some (s', c', true))
  unfolding receive_all
  first_accepted s c buffer n rs s' c' e =
      go (process_buffer_data handle (suc n) s c buffer n 0) refl
    where
      go :
          (r : Option (S × Context × Bool))
          → process_buffer_data handle (suc n) s c buffer n 0 ≡ r
          → (s1 : S) × (c1 : Context) × (process_buffer_data handle (suc n) s c buffer n 0
              ≡ some (s1, c1, true))
            × (receive_all s1 c1 rs ≡ some (s', c', true))
      go none q = cc (rw (q, receive_all) at e)
      go (some (s1, c1, true)) q = (s1, c1, q, ground arith)
      go (some (s1, c1, false)) q = absurd (ground arith)

  receive_all-feed :
      (buffer : List ℕ) (n : ℕ) (rs : List (List ℕ × ℕ)) (s : S) (c : Context) (s' : S)
      (c' : Context)
      → IsOpen c
      → All IsReceive ((buffer, n) ∷ rs)
      → receive_all s c ((buffer, n) ∷ rs) ≡ some (s', c', true)
      → feed handle (suc (length (bytes_of ((buffer, n) ∷ rs)))) s c (bytes_of ((buffer, n) ∷ rs))
        ≡ some (s', c', true)
  receive_all-feed buffer n [] s c s' c' o v e =
      let (s1, c1, first, done) = first_accepted s c buffer n [] s' c' e in
      let same = receive_as_feed s c buffer n o v.0 in
      unfold receive_all in ground (arith, append-nil (take n buffer))
  receive_all-feed buffer n ((b, k) ∷ rs) s c s' c' o v e =
      let (s1, c1, first, later) = first_accepted s c buffer n ((b, k) ∷ rs) s' c' e in
      let same = receive_as_feed s c buffer n o v.0 in
      let fed : feed handle (suc (length (take n buffer))) s c (take n buffer)
          ≡ some (s1, c1, true) =
        sym same ∙ first in
      let ys = bytes_of ((b, k) ∷ rs) in
      let opened = feed-IsOpen handle _ s c (take n buffer) o fed in
      let some_more : is_nil ys ≡ false =
        ground
          (arith, is_nil_iff_length ys, length-append (take k b) (bytes_of rs), length-take k b) in
      feed-append handle _ _ (suc (length ys)) s c (take n buffer) ys s1 c1 o some_more fed
        (omega arith) (omega arith)
      ∙ receive_all-feed b k rs s1 c1 s' c' opened v.1 later

  -- Whatever the sizes of the receives, as long as each is accepted: if the bytes that came in are
  -- the stream of the messages `m ∷ ms`, the server has handled exactly these, in order, and
  -- refused none.
  pub receive_all-stream :
      (buffer : List ℕ) (n : ℕ) (rs : List (List ℕ × ℕ)) (m : List ℕ) (ms : List (List ℕ)) (s : S)
      (s' : S) (c' : Context)
      → All IsReceive ((buffer, n) ∷ rs)
      → All Fits (m ∷ ms)
      → bytes_of ((buffer, n) ∷ rs) ≡ stream (m ∷ ms)
      → receive_all s no_message ((buffer, n) ∷ rs) ≡ some (s', c', true)
      → handle_all s (m ∷ ms) ≡ (s', true)
  receive_all-stream buffer n rs m ms s s' c' v h same e =
      let xs = bytes_of ((buffer, n) ∷ rs) in
      let fed = receive_all-feed buffer n rs s no_message s' c' (inl (refl, refl)) v e in
      let handled = feed-stream (suc (length (stream (m ∷ ms)))) s m ms h (omega arith) in
      let handled' =
        subst
          (λ (t : List ℕ).
            outcome (feed handle (suc (length t)) s no_message t) ≡ some (handle_all s (m ∷ ms)))
          (sym same) handled in
      ground arith
