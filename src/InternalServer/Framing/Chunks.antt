-- ===== src/InternalServer/Framing/Chunks.antt =====
-- How a byte stream is cut into receives does not matter, as long as every receive is accepted.
use mathlib.Core.List.{append_assoc}
use module_gateway.Common.{
  ℕ, zero, suc, ◌-◌, ◌≤◌, ◌<◌, inl, inr, Bool, true, false, List, [], ◌∷◌, ◌++◌, none, some, length,
  take, drop, ltb, leb, ◌==◌, ◌&&◌, if◌then◌else◌, is_nil, ◌≡◌, ◌≢◌, refl, sym, ap, subst, arith,
  length-take, length-drop, length-append, Bool-cases, take_all, drop_all, take-append_le,
  drop-append_le, take-append_ge, drop-append_ge, is_nil_iff_length,
}
use module_gateway.Structures.Constants.{header}
use module_gateway.InternalServer.Framing.{Context, read_header, finish_message}
use module_gateway.InternalServer.Framing.Stream.{split_header, IsOpen, feed}
use module_gateway.InternalServer.Framing.Refines.{finish_message-IsOpen}

-- The bytes are shorter than the header that is due.
abbrev cut_header : Context → List ℕ → Bool
cut_header c xs = ltb (length xs) header && c.complete_message_size == 0

module _ (c : Context) (xs : List ℕ) where
  -- Open, and so within the size.
  message_le : IsOpen c → length c.complete_message ≤ (split_header c xs).0
  unfolding split_header
  message_le o = ground arith

  -- What a round leaves is shorter, or nothing.
  rest_lt :
      IsOpen c
      → cut_header c xs ≡ false
      → is_nil (drop ((split_header c xs).0 - length c.complete_message) (split_header c xs).1)
        ≡ false
      → length (drop ((split_header c xs).0 - length c.complete_message) (split_header c xs).1)
        < length xs
  unfolding split_header
  rest_lt o h r =
      let k = (split_header c xs).0 - length c.complete_message in
      ground (
        arith,
        length-drop k (drop header xs),
        length-drop k xs,
        length-drop header xs,
        is_nil_iff_length (drop k xs),
      )

  taken_le :
      IsOpen c
      → length (
          c.complete_message
          ++ take ((split_header c xs).0 - length c.complete_message) (split_header c xs).1)
        ≤ (split_header c xs).0
  taken_le o =
      let k = (split_header c xs).0 - length c.complete_message in
      omega (
        arith,
        message_le o,
        length-append c.complete_message (take k (split_header c xs).1),
        length-take k (split_header c xs).1,
      )

read_header-append : (xs ys : List ℕ) → header ≤ length xs → read_header (xs ++ ys) ≡ read_header xs
unfolding read_header
read_header-append [] ys h = absurd (omega arith)
read_header-append (a ∷ []) ys h = absurd (omega arith)
read_header-append (a ∷ b ∷ []) ys h = absurd (omega arith)
read_header-append (a ∷ b ∷ c ∷ []) ys h = absurd (omega arith)
read_header-append (a ∷ b ∷ c ∷ d ∷ xs) ys h = refl

split_header-append :
    (c : Context) (xs ys : List ℕ)
    → cut_header c xs ≡ false
    → split_header c (xs ++ ys) ≡ ((split_header c xs).0, (split_header c xs).1 ++ ys)
unfolding split_header
split_header-append c xs ys h =
    ground (arith, read_header-append xs ys, drop-append_le header xs ys)

module _ {S : Type 0} (handle : S → List ℕ → S × Bool) where
  -- The state after the round that `feed` makes first.
  abbrev round : S → Context → List ℕ → S × Context × Bool
  round s c xs = finish_message handle s (split_header c xs).0 (
      c.complete_message
      ++ take ((split_header c xs).0 - length c.complete_message) (split_header c xs).1)

  abbrev left : Context → List ℕ → List ℕ
  left c xs = drop ((split_header c xs).0 - length c.complete_message) (split_header c xs).1

  round-IsOpen :
      (s : S) (c : Context) (xs : List ℕ)
      → IsOpen c
      → (round s c xs).2 ≡ true
      → IsOpen (round s c xs).1
  round-IsOpen s c xs o r =
      finish_message-IsOpen handle s (split_header c xs).0 _ (taken_le c xs o) r

  -- More fuel than bytes is enough, and how much more does not matter.
  pub feed_fuel :
      (f g : ℕ) (s : S) (c : Context) (xs : List ℕ)
      → IsOpen c
      → length xs < f
      → length xs < g
      → feed handle f s c xs ≡ feed handle g s c xs
  unfolding feed
  feed_fuel zero g s c xs o hf hg = absurd (omega arith)
  feed_fuel (suc f) zero s c xs o hf hg = absurd (omega arith)
  feed_fuel (suc f) (suc g) s c xs o hf hg = ground (
    arith,
    rest_lt c xs o,
    round-IsOpen s c xs o,
    feed_fuel f g (round s c xs).0 (round s c xs).1 (left c xs),
  )

  -- The loop ends: with an open context and more fuel than bytes it has a result.
  pub feed_total :
      (f : ℕ) (s : S) (c : Context) (xs : List ℕ)
      → IsOpen c
      → length xs < f
      → feed handle f s c xs ≢ none
  unfolding feed
  feed_total zero s c xs o h = absurd (omega arith)
  feed_total (suc f) s c xs o h = ground (
    arith,
    rest_lt c xs o,
    round-IsOpen s c xs o,
    feed_total f (round s c xs).0 (round s c xs).1 (left c xs),
  )

  -- After an accepted receive the context is open.
  pub feed-IsOpen :
      (f : ℕ) (s : S) (c : Context) (xs : List ℕ) {s' : S} {c' : Context}
      → IsOpen c
      → feed handle f s c xs ≡ some (s', c', true)
      → IsOpen c'
  unfolding feed
  feed-IsOpen zero s c xs o e = cc
  feed-IsOpen (suc f) s c xs {s'} {c'} o e = ground (
    arith,
    round-IsOpen s c xs o,
    feed-IsOpen f (round s c xs).0 (round s c xs).1 (left c xs) {s' = s'} {c' = c'},
  )

  module _ (s : S) (c : Context) (xs ys : List ℕ) (o : IsOpen c)
      (whole : cut_header c xs ≡ false) where
    need : ℕ
    need = (split_header c xs).0 - length c.complete_message

    body : List ℕ
    body = (split_header c xs).1

    -- The message at hand is complete within `xs`.
    round-append_complete :
        need ≤ length body
        → (round s c (xs ++ ys) ≡ round s c xs) × (left c (xs ++ ys) ≡ left c xs ++ ys)
    unfolding need body
    round-append_complete h =
        rw (split_header-append c xs ys whole)
          (rw (take-append_le need body ys h) (refl, drop-append_le need body ys h))

    -- It is not: the next receive goes on with it.
    round-append_partial :
        length body < need
        → (round s c xs ≡ (
          s,
          record {
            complete_message_size = (split_header c xs).0;
            complete_message = c.complete_message ++ body;
          },
          true,
        ))
          × (left c xs ≡ [])
    unfolding need body finish_message
    round-append_partial h =
        let taken = take_all need body (omega arith) in
        let dropped = drop_all need body (omega arith) in
        let size = length-append c.complete_message body in (ground arith, dropped)

    abbrev partial : Context
    partial = record {
      complete_message_size = (split_header c xs).0;
      complete_message = c.complete_message ++ body;
    }

    partial_header : length body < need → split_header partial ys ≡ ((split_header c xs).0, ys)
    unfolding need
    partial_header h =
        let sized : 0 < (split_header c xs).0 = omega arith in unfold split_header in ground arith

    partial_whole : length body < need → cut_header partial ys ≡ false
    unfolding need
    partial_whole h = let sized : 0 < (split_header c xs).0 = omega arith in ground arith

    round-append_resume :
        length body < need
        → (round s c (xs ++ ys) ≡ round s partial ys) × (left c (xs ++ ys) ≡ left partial ys)
    unfolding need body
    round-append_resume h =
        let more : (split_header c xs).0 - length (c.complete_message ++ body)
            ≡ need - length body =
          omega (arith, length-append c.complete_message body) in
        rw (split_header-append c xs ys whole) (
          rw (partial_header h) (
            rw more (
              rw (take-append_ge need body ys (omega arith)) (
                ap (finish_message handle s (split_header c xs).0)
                    (sym (append_assoc c.complete_message body (take (need - length body) ys))),
                drop-append_ge need body ys (omega arith),
              ))))

  feed_step :
      (f : ℕ) (s : S) (c : Context) (xs : List ℕ)
      → cut_header c xs ≡ false
      → feed handle (suc f) s c xs ≡ (
          if (round s c xs).2
          then (if is_nil (left c xs)
              then some ((round s c xs).0, (round s c xs).1, true)
              else feed handle f (round s c xs).0 (round s c xs).1 (left c xs))
          else some ((round s c xs).0, (round s c xs).1, false))
  unfolding feed
  feed_step f s c xs h = ground arith

  feed_cut :
      (f : ℕ) (s : S) (c : Context) (xs : List ℕ)
      → cut_header c xs ≡ true
      → feed handle (suc f) s c xs ≡ some (s, c, false)
  unfolding feed
  feed_cut f s c xs h = ground arith

  -- A message that is complete within the bytes takes some of them.
  complete_pos :
      (s : S) (c : Context) (xs ys : List ℕ) (o : IsOpen c) (whole : cut_header c xs ≡ false)
      → need s c xs ys o whole ≤ length (body s c xs ys o whole)
      → 0 < length xs
  unfolding need body split_header
  complete_pos s c xs ys o whole h = ground arith

  -- Bytes that follow an accepted receive are treated as if they had come with it.
  pub feed-append :
      (f g h : ℕ) (s : S) (c : Context) (xs ys : List ℕ) (s' : S) (c' : Context)
      → IsOpen c
      → is_nil ys ≡ false
      → feed handle f s c xs ≡ some (s', c', true)
      → length (xs ++ ys) < g
      → length ys < h
      → feed handle g s c (xs ++ ys) ≡ feed handle h s' c' ys
  feed-append zero g h s c xs ys s' c' o n e hg hh = unfold feed in cc
  feed-append (suc f) zero h s c xs ys s' c' o n e hg hh = absurd (omega arith)
  feed-append (suc f) (suc g) zero s c xs ys s' c' o n e hg hh = absurd (omega arith)
  feed-append (suc f) (suc g) (suc h) s c xs ys s' c' o n e hg hh =
      elim (Bool-cases (cut_header c xs)) [
        | inl cut ↦ cc (feed_cut f s c xs cut)
        | inr whole ↦
            let whole' : cut_header c (xs ++ ys) ≡ false = ground (arith, length-append xs ys) in
            let step = feed_step f s c xs whole in
            let step' = feed_step g s c (xs ++ ys) whole' in
            let s1 = (round s c xs).0 in
            let c1 = (round s c xs).1 in
            elim (Bool-cases (leb (need s c xs ys o whole) (length (body s c xs ys o whole)))) [
              | inl complete ↦
                  let (same, rest) = round-append_complete s c xs ys o whole (ground arith) in
                  let more = complete_pos s c xs ys o whole (ground arith) in
                  elim (Bool-cases (is_nil (left c xs))) [
                    | inl none_left ↦
                        let nothing : left c xs ≡ [] = ground arith in
                        ground (
                          arith,
                          length-append xs ys,
                          round-IsOpen s c xs o,
                          feed_fuel g (suc h) s1 c1 ys,
                        )
                    | inr some_left ↦ ground (
                      arith,
                      length-append xs ys,
                      length-append (left c xs) ys,
                      is_nil_iff_length (left c xs ++ ys),
                      is_nil_iff_length ys,
                      rest_lt c xs o whole,
                      round-IsOpen s c xs o,
                      feed-append f g (suc h) s1 c1 (left c xs) ys s' c',
                    )
                  ]
              | inr partial_message ↦
                  let (first, none_left) = round-append_partial s c xs ys o whole (ground arith) in
                  let (same, rest) = round-append_resume s c xs ys o whole (ground arith) in
                  let p = partial s c xs ys o whole in
                  let opened : IsOpen p =
                    subst (λ (r : S × Context × Bool). IsOpen r.1) first
                      (round-IsOpen s c xs o (ap (λ (r : S × Context × Bool). r.2) first)) in
                  let whole_p : cut_header p ys ≡ false =
                    partial_whole s c xs ys o whole (ground arith) in
                  ground (
                    arith,
                    length-append xs ys,
                    feed_step h s p ys whole_p,
                    rest_lt p ys opened whole_p,
                    round-IsOpen s p ys opened,
                    feed_fuel g h (round s p ys).0 (round s p ys).1 (left p ys),
                  )
            ]
      ]
