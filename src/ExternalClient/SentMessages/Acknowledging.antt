-- ===== src/ExternalClient/SentMessages/Acknowledging.antt =====
-- What status responses leave of the statuses that wait for them.
use module_gateway.Common.{
  ℕ, suc, ◌-◌, ltb, ◌&&◌, List, [], ◌∷◌, none, some, ◌==◌, is_nil, if◌then◌else◌, ◌≡◌, refl, arith,
  Option-cases, Bool-cases, inl, inr,
}
use module_gateway.Structures.ReturnCode.{ok, not_ok}
use module_gateway.ExternalClient.SentMessages.{
  NotAckedStatus, SentMessagesHandler, take_acked, acknowledge_status, is_any_device_connected,
  all_statuses_acked,
}

-- How many statuses wait with the counter, and how many responses carry it.
abbrev pub waiting : ℕ → List NotAckedStatus → ℕ
waiting c [] = 0
waiting c (s ∷ ss) = if s.message_counter == c then suc (waiting c ss) else waiting c ss

abbrev pub occurrences : ℕ → List ℕ → ℕ
occurrences c [] = 0
occurrences c (k ∷ ks) = if k == c then suc (occurrences c ks) else occurrences c ks

-- Status responses with the counters, one after another.
unfoldable pub acknowledge_all : SentMessagesHandler → List ℕ → SentMessagesHandler
acknowledge_all h [] = h
acknowledge_all h (c ∷ cs) = acknowledge_all (acknowledge_status h c).0 cs

-- Who had the counter: nobody, or the status that was taken.
take_acked-none : (k : ℕ) (ss : List NotAckedStatus) → take_acked k ss ≡ none → waiting k ss ≡ 0
unfolding take_acked
take_acked-none k [] h = refl
take_acked-none k (s ∷ ss) h = elim (Option-cases (take_acked k ss)) [
  | inl f ↦ ground (arith, take_acked-none k ss f)
  | inr (left, f) ↦ absurd (ground arith)
]

take_acked-some :
    (c k : ℕ) (ss left : List NotAckedStatus)
    → take_acked k ss ≡ some left
    → waiting c ss ≡ (if k == c then suc (waiting c left) else waiting c left)
unfolding take_acked
take_acked-some c k [] left h = cc
take_acked-some c k (s ∷ ss) left h = elim (Bool-cases (s.message_counter == k)) [
  | inl p ↦
      let same : s.message_counter ≡ k = ground arith in
      let taken : ss ≡ left = ground arith in rw (← taken, same) refl
  | inr p ↦ elim (Option-cases (take_acked k ss)) [
    | inl f ↦ absurd (ground arith)
    | inr (rest, f) ↦
        let kept : s ∷ rest ≡ left = ground arith in
        let ih = take_acked-some c k ss rest f in rw (← kept) (ground arith)
  ]
]

waiting-acknowledge :
    (c k : ℕ) (h : SentMessagesHandler)
    → waiting c (acknowledge_status h k).0.not_acked_statuses
      ≡ (if k == c then waiting c h.not_acked_statuses - 1 else waiting c h.not_acked_statuses)
unfolding acknowledge_status
waiting-acknowledge c k h = elim (Option-cases (take_acked k h.not_acked_statuses)) [
  | inl f ↦ ground (arith, take_acked-none k h.not_acked_statuses f)
  | inr (left, f) ↦ ground (arith, take_acked-some c k h.not_acked_statuses left f)
]

-- After responses with any counters in any order, as many statuses still wait with a counter as did
-- before, less one for each response that carried it, down to none.
pub acknowledge_all-waiting :
    (cs : List ℕ) (h : SentMessagesHandler) (c : ℕ)
    → waiting c (acknowledge_all h cs).not_acked_statuses
      ≡ waiting c h.not_acked_statuses - occurrences c cs
unfolding acknowledge_all
acknowledge_all-waiting [] h c = omega arith
acknowledge_all-waiting (k ∷ cs) h c =
    let later = acknowledge_all-waiting cs (acknowledge_status h k).0 c in
    ground (arith, waiting-acknowledge c k h)

-- A response is refused exactly when no status waits with its counter, or when it answers the last
-- status while no device is connected. Nothing but the waiting statuses changes.
pub acknowledge_status_lem :
    (h : SentMessagesHandler) (c : ℕ)
    → let (after, rc) = acknowledge_status h c in
      (rc ≡ (
        if ltb 0 (waiting c h.not_acked_statuses)
        then (if is_nil h.connected_devices && is_nil after.not_acked_statuses then not_ok else ok)
        else not_ok))
      × (after.connected_devices ≡ h.connected_devices)
      × (after.response_handled ≡ h.response_handled)
      × (after.ended ≡ h.ended)
unfolding acknowledge_status is_any_device_connected all_statuses_acked
acknowledge_status_lem h c = elim (Option-cases (take_acked c h.not_acked_statuses)) [
  | inl f ↦
      let gone = take_acked-none c h.not_acked_statuses f in
      (ground arith, ground arith, ground arith, ground arith)
  | inr (left, f) ↦
      let there = take_acked-some c c h.not_acked_statuses left f in
      (ground arith, ground arith, ground arith, ground arith)
]
