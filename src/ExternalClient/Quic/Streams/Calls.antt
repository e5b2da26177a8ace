-- ===== src/ExternalClient/Quic/Streams/Calls.antt =====
-- The calls into MsQuic as they are counted: the buffers and the streams that they concern.
use module_gateway.Common.{
  ℕ, ◌+◌, ◌<◌, true, List, [], ◌∷◌, ◌++◌, some, if◌then◌else◌, ◌==◌, ◌≡◌, refl, sym, ap, ◌∙◌, arith,
  Bool-cases, inl, inr,
}
use mathlib.Core.List.{append_assoc}
use module_gateway.ExternalClient.Quic.Streams.{
  Call, stream_open, stream_send, stream_close, set_callback_handler, Streams, call, allocate,
  erase, free,
}

-- What each call has, in order.
abbrev pub of_each {ℓ} : {A : Type ℓ} → (Call → List A) → List Call → List A
of_each f [] = []
of_each f (c ∷ cs) = f c ++ of_each f cs

-- The context of a send that MsQuic accepted.
abbrev pub sent_by : Call → List ℕ
sent_by (stream_send stream context bytes true) = context ∷ []
sent_by _ = []

-- Its bytes.
abbrev pub bytes_by : Call → List (List ℕ)
bytes_by (stream_send stream context bytes true) = bytes ∷ []
bytes_by _ = []

-- The stream that was opened, or that the peer started.
abbrev pub opened_by : Call → List ℕ
opened_by (stream_open mode (some stream)) = stream ∷ []
opened_by (set_callback_handler stream) = stream ∷ []
opened_by _ = []

abbrev pub closed_by : Call → List ℕ
closed_by (stream_close stream) = stream ∷ []
closed_by _ = []

-- How often a number stands in a list.
abbrev pub count : ℕ → List ℕ → ℕ
count b [] = 0
count b (c ∷ cs) = (if c == b then 1 else 0) + count b cs

pub of_each-append {ℓ} :
    {A : Type ℓ} (f : Call → List A) (cs ds : List Call)
    → of_each f (cs ++ ds) ≡ of_each f cs ++ of_each f ds
of_each-append f [] ds = refl
of_each-append f (c ∷ cs) ds =
    ap (λ l. f c ++ l) (of_each-append f cs ds)
    ∙ sym (append_assoc (f c) (of_each f cs) (of_each f ds))

count-append : (n : ℕ) (xs ys : List ℕ) → count n (xs ++ ys) ≡ count n xs + count n ys
count-append n [] ys = omega arith
count-append n (x ∷ xs) ys = let ih = count-append n xs ys in omega arith

count-erase :
    (n b : ℕ) (cs : List ℕ)
    → 0 < count b cs
    → count n (erase b cs) + (if b == n then 1 else 0) ≡ count n cs
unfolding erase
count-erase n b [] h = absurd (omega arith)
count-erase n b (c ∷ cs) h = elim (Bool-cases (c == b)) [
  | inl e ↦ ground (arith, e)
  | inr e ↦ ground (arith, e, count-erase n b cs)
]

-- A call adds what it has.
pub count-call :
    (n : ℕ) (f : Call → List ℕ) (c : Call) (s : Streams)
    → count n (of_each f (call c s).calls) ≡ count n (of_each f s.calls) + count n (f c ++ [])
unfolding call
count-call n f c s =
    ap (count n) (of_each-append f s.calls (c ∷ []))
    ∙ count-append n (of_each f s.calls) (f c ++ [])

pub count-free :
    (n b : ℕ) (s : Streams)
    → 0 < count b s.live
    → (count n (free b s).live + (if b == n then 1 else 0) ≡ count n s.live)
      × (count n (free b s).freed ≡ count n s.freed + (if b == n then 1 else 0))
unfolding free
count-free n b s h = (count-erase n b s.live h, ground (arith, count-append n s.freed (b ∷ [])))

pub count-allocate :
    (n : ℕ) (s : Streams)
    → count n (allocate s).live ≡ count n s.live + (if s.next == n then 1 else 0)
unfolding allocate
count-allocate n s = ground (arith, count-append n s.live (s.next ∷ []))

pub count-reclaim :
    (n : ℕ) (s : Streams)
    → (count n (free s.next (allocate s)).live ≡ count n s.live)
      × (count n (free s.next (allocate s)).freed
          ≡ count n s.freed + (if s.next == n then 1 else 0))
unfolding allocate
count-reclaim n s =
    let own = count-allocate s.next s in
    let there : 0 < count s.next (allocate s).live = ground (arith, own) in
    let freed = count-free n s.next (allocate s) there in
    (ground (arith, freed, count-allocate n s), freed.1)
