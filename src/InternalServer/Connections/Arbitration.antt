-- ===== src/InternalServer/Connections/Arbitration.antt =====
-- Who stays connected when two connections claim one device, and whom a response reaches.
use module_gateway.Common.{
  ℕ, ◌<◌, ◌≤◌, true, false, ◌&&◌, List, [], ◌∷◌, ◌++◌, none, some, ◌==◌, if◌then◌else◌, All,
  All-map, All_of, ◌≡◌, ◌⊎◌, inl, inr, refl, arith, Option-cases, Bool-cases,
}
use module_gateway.Structures.Device.{DeviceIdentification, same_device, device_eq}
use module_gateway.Structures.Messages.{
  InternalServer, device_connect, client_message, disconnect_message,
}
use module_gateway.InternalServer.Connections.{
  Connection, Server, update, close_socket, is_same, find_in, erase_in, find_connection,
  priority_of, remove_conn_from_map, remove_device_of, connect_new_device, change_connection,
  respond, send_response, handle_connection, validate_response, response_device,
}
use module_gateway.InternalServer.Connections.Registry.{
  Distinct, find_in-device, find_congr, find_in-none, find_in-some, erase_in_gone,
}
open device_eq use {same_refl, same_sym}

module _ (cs : ℕ → Connection) where
  find_in_free :
      (d : DeviceIdentification) (is : List ℕ)
      → All (λ k. is_same d (cs k) ≡ false) is
      → find_in cs d is ≡ none
  unfolding find_in
  find_in_free d [] h = refl
  find_in_free d (i ∷ is) h = ground (arith, find_in_free d is h.1, h.0)

  -- Where no other connection has the device, a connection that is added at the end is found.
  find_in_end :
      (d : DeviceIdentification) (is : List ℕ) (i : ℕ)
      → All (λ k. (k ≡ i) ⊎ (is_same d (cs k) ≡ false)) is
      → is_same d (cs i) ≡ true
      → find_in cs d (is ++ i ∷ []) ≡ some i
  unfolding find_in
  find_in_end d [] i h e = ground (arith, e)
  find_in_end d (j ∷ is) i h e = ground (arith, find_in_end d is i h.1 e, h.0)

-- A removal takes whoever is connected as the same device with an equal priority.
pub remove_conn-found :
    (i j : ℕ) (d e : DeviceIdentification) (s : Server)
    → find_connection s d ≡ some j
    → (s.connection i).device_id ≡ some e
    → same_device d e ≡ true
    → (priority_of (s.connection j) == e.priority) ≡ true
    → let r = remove_conn_from_map s i in
      (r.connected ≡ erase_in s.connection d s.connected)
      × (r.from_internal ≡ s.from_internal ++ disconnect_message e ∷ [])
unfolding remove_conn_from_map remove_device_of update find_connection
remove_conn-found i j d e s f q same p =
    let s' = update i close_socket s in
    let (found, erased) = find_congr s'.connection d e s.connected same in
    let (found', erased') =
      find_in-device s.connection s'.connection d s.connected
        (All_of _ (λ k. ground arith) s.connected) in
    ground arith

-- A device that nobody has is found at the connection that joins with it.
pub connected_found :
    (t : Server) (i : ℕ) (d : DeviceIdentification)
    → All (λ k. is_same d (t.connection k) ≡ false) t.connected
    → find_connection (connect_new_device t i d) d ≡ some i
unfolding find_connection connect_new_device update is_same
connected_found t i d h =
    find_in_end _ d t.connected i (All-map _ _ kept t.connected h) (ground (arith, same_refl d))
  where
    kept :
        (k : ℕ)
        → is_same d (t.connection k) ≡ false
        → (k ≡ i) ⊎ (is_same d ((connect_new_device t i d).connection k) ≡ false)
    kept k q = elim (Bool-cases (i == k)) [
      | inl e ↦ inl (ground arith)
      | inr e ↦ inr (ground arith)
    ]

-- The device is nobody's after the removal.
left :
    (s : Server) (j : ℕ) (d : DeviceIdentification)
    → Distinct s.connection s.connected
    → All
        (λ k. is_same d ((remove_conn_from_map s j).connection k) ≡ false)
        (erase_in s.connection d s.connected)
unfolding remove_conn_from_map remove_device_of update is_same
left s j d distinct =
    All-map _ _ (λ k q. ground arith) _ (erase_in_gone s.connection d s.connected distinct)

-- The connected device is gone with its connection, and its disconnect message is queued.
pub remove_conn-gone :
    (s : Server) (i : ℕ) (d e : DeviceIdentification)
    → Distinct s.connection s.connected
    → find_connection s d ≡ some i
    → (s.connection i).device_id ≡ some e
    → let r = remove_conn_from_map s i in
      (find_connection r d ≡ none)
      × (r.from_internal ≡ s.from_internal ++ disconnect_message e ∷ [])
      × (r.sent ≡ s.sent)
unfolding find_connection
remove_conn-gone s i d e distinct f q =
    let (e', q', same) = find_in-some s.connection d s.connected i f in
    let here : same_device d e ≡ true = ground arith in
    let (erased, queued) = remove_conn-found i i d e s f q here (ground arith) in
    (
      find_in_free _ d _ (rw erased (left s i d distinct)),
      queued,
      unfold remove_conn_from_map remove_device_of update in ground arith,
    )

module _ (s : Server) (i j : ℕ) (d e : DeviceIdentification) (f : find_connection s d ≡ some j)
    (q : (s.connection j).device_id ≡ some e) (free : (s.connection i).ready ≡ false) where
  replaced-less : (handle_connection s i d).1 ≡ true → d.priority < e.priority
  unfolding handle_connection
  replaced-less h = ground arith

  replaced :
      d.priority < e.priority
      → handle_connection s i d ≡ (connect_new_device (remove_conn_from_map s j) i d, true)
  unfolding handle_connection change_connection
  replaced h = ground arith

-- A connection claims a device, where no two connected ones have the same. If it is accepted,
-- either nobody was connected as that device, or somebody with a greater priority number. It is
-- then the connection that is found for the device; its connect message is the last one queued
-- for the module handler, and who was replaced has its disconnect message queued before it.
pub handle_connection-accepted :
    (s : Server) (i : ℕ) (d : DeviceIdentification)
    → Distinct s.connection s.connected
    → (handle_connection s i d).1 ≡ true
    → let r = (handle_connection s i d).0 in
      let connect = client_message false (device_connect d) in
      (find_connection r d ≡ some i)
      × (((find_connection s d ≡ none) × (r.from_internal ≡ s.from_internal ++ connect ∷ []))
          ⊎ ((j : ℕ) × (e : DeviceIdentification) × (find_connection s d ≡ some j)
              × ((s.connection j).device_id ≡ some e)
              × (d.priority < e.priority)
              × (r.from_internal ≡ (s.from_internal ++ disconnect_message e ∷ []) ++ connect ∷ [])))
unfolding handle_connection find_connection
handle_connection-accepted s i d distinct h = elim (Bool-cases (s.connection i).ready) [
  | inl busy ↦ absurd (ground arith)
  | inr free ↦ elim (Option-cases (find_in s.connection d s.connected)) [
    | inl f ↦
        rw (free, f, handle_connection)
          (
            connected_found s i d (find_in-none s.connection d s.connected f),
            inl (refl, unfold connect_new_device update in refl),
          )
    | inr (j, f) ↦
        let (e, q, same) = find_in-some s.connection d s.connected j f in
        let less = replaced-less s i j d e f q free h in
        let result = replaced s i j d e f q free less in
        let (gone, queued) = remove_conn-found j j d e s f q same (ground arith) in
        rw result (
          connected_found (remove_conn_from_map s j) i d (rw gone (left s j d distinct)),
          inr (j, e, f, q, less, unfold connect_new_device update in rw queued refl),
        )
  ]
]

-- If a claim is refused, nothing is connected or queued, and the reason is that the connection is
-- ready, or that somebody is connected as that device whose priority number is not
-- greater.
pub handle_connection-refused :
    (s : Server) (i : ℕ) (d : DeviceIdentification)
    → (handle_connection s i d).1 ≡ false
    → let r = (handle_connection s i d).0 in
      (r.connected ≡ s.connected)
      × (r.from_internal ≡ s.from_internal)
      × (((s.connection i).ready ≡ true)
          ⊎ ((j : ℕ) × (find_connection s d ≡ some j)
              × (priority_of (s.connection j) ≤ d.priority)))
unfolding handle_connection respond send_response
handle_connection-refused s i d h = elim (Bool-cases (s.connection i).ready) [
  | inl busy ↦ (ground arith, ground arith, inl busy)
  | inr free ↦ elim (Option-cases (find_connection s d)) [
    | inl f ↦ absurd (ground arith)
    | inr (j, f) ↦ (ground arith, ground arith, inr (j, f, ground arith))
  ]
]

-- A response reaches one connection at most: every other one is as ready as before. Whoever becomes
-- ready is the one found for the response's device, with exactly its priority, and the response is
-- written to its socket if that is open and the write succeeds; to other sockets nothing is.
pub validate_response-routes :
    (s : Server) (m : InternalServer) (i : ℕ)
    → let r = validate_response s m in
      let d = response_device m in
      ((r.connection i ≡ s.connection i) × ((r.sent ≡ s.sent) ⊎ ¬ (find_connection s d ≡ some i)))
      ⊎ ((find_connection s d ≡ some i)
          × (priority_of (s.connection i) ≡ d.priority)
          × ((r.connection i).ready ≡ true)
          × (r.sent ≡ (
              if (s.connection i).socket_open && (s.connection i).writable
              then s.sent ++ (i, m) ∷ []
              else s.sent)))
unfolding validate_response send_response update
validate_response-routes s m i = elim (Option-cases (find_connection s (response_device m))) [
  | inl f ↦ inl (ground arith, inl (ground arith))
  | inr (j, f) ↦ elim (Bool-cases (j == i)) [
    | inl here ↦ elim (Bool-cases (priority_of (s.connection j) == (response_device m).priority)) [
      | inl p ↦ inr (ground arith, ground arith, ground arith, ground arith)
      | inr p ↦ inl (ground arith, inl (ground arith))
    ]
    | inr other ↦ inl (ground arith, inr (λ e. absurd (ground arith)))
  ]
]

-- A connection that is not the one connected for its device, but has the priority of that one, is
-- removed: the device is not connected any more, its disconnect message is queued, and the
-- connection that was connected keeps its socket open.
pub remove_conn-replaced :
    (s : Server) (i j : ℕ) (e : DeviceIdentification)
    → Distinct s.connection s.connected
    → (s.connection i).device_id ≡ some e
    → find_connection s e ≡ some j
    → (i == j) ≡ false
    → priority_of (s.connection j) ≡ e.priority
    → let r = remove_conn_from_map s i in
      (find_connection r e ≡ none)
      × (r.connection j ≡ s.connection j)
      × (r.from_internal ≡ s.from_internal ++ disconnect_message e ∷ [])
unfolding find_connection
remove_conn-replaced s i j e distinct q f other p =
    let (erased, queued) = remove_conn-found i j e e s f q (same_refl e) (ground arith) in
    (
      find_in_free _ e _ (rw erased (left s i e distinct)),
      unfold remove_conn_from_map remove_device_of update in ground arith,
      queued,
    )
