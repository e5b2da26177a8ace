-- ===== src/InternalServer/Connections/Invariant.antt =====
-- What holds of the connected devices between two events.
pub mod Steps
pub mod Reachable
use module_gateway.Common.{
  ℕ, Bool, true, false, List, [], ◌∷◌, ◌++◌, Option, none, some, ◌==◌, if◌then◌else◌, All, All-map,
  All-zip, All-append, ap, ◌≢◌, ◌≡◌, ◌⊎◌, inl, inr, refl, arith, Option-cases, Bool-cases,
}
use module_gateway.Structures.Device.{DeviceIdentification, same_device, device_eq}
use module_gateway.Structures.Messages.{
  InternalClient, device_status, device_connect, nothing, InternalServer, ResponseType,
}
use module_gateway.InternalServer.Connections.{
  Connection, Server, update, close_socket, is_same, find_in, erase_in, find_connection,
  priority_of, remove_conn_from_map, remove_device_of, connect_new_device, change_connection,
  respond, send_response, handle_connection, handle_status, begin_message, end_message,
  handle_disconnect, validate_response, response_device,
}
use module_gateway.InternalServer.Connections.Registry.{
  SameDevices, Distinct, Distinct-device, Distinct-append, find_in-device, erase_in-All,
  erase_in-Distinct, find_congr, find_in-none, find_in-some, find_in_only, erase_in_gone,
}
use module_gateway.InternalServer.Connections.System.{
  System, Phase, absent, idle, waiting, gone, Event, accepts, receives, finishes, fails, responds,
  disconnects, peer_changes, set_phase, init, drop, continue_if, accept_in, receive_in, finish_in,
  fail_in, step, run, new_connection,
}

abbrev pub has_device : Connection → Bool
has_device c = elim c.device_id [ none ↦ false | some d ↦ true ]

-- A connected device is known, and its handler waits for an answer, or has had one.
abbrev pub IsGood : (ℕ → Connection) → (ℕ → Phase) → ℕ → Type 0
IsGood cs ph i =
    (has_device (cs i) ≡ true) × ((ph i ≡ waiting) ⊎ ((ph i ≡ idle) × ((cs i).ready ≡ true)))

pub record IsSound (cs : ℕ → Connection) (is : List ℕ) (ph : ℕ → Phase) : Type 0 where
  pub distinct : Distinct cs is
  pub good : All (IsGood cs ph) is

abbrev pub Sound : System → Type 0
Sound y = IsSound y.server.connection y.server.connected y.phase

-- The connection is not among the connected ones.
abbrev pub Absent : ℕ → List ℕ → Type 0
Absent i is = All (λ j. (i == j) ≡ false) is

module _ (cs cs' : ℕ → Connection) (ph ph' : ℕ → Phase) where
  change-IsSound :
      (is : List ℕ)
      → ((j : ℕ) → SameDevices cs cs' j)
      → ((j : ℕ) → IsGood cs ph j → IsGood cs' ph' j)
      → IsSound cs is ph
      → IsSound cs' is ph'
  change-IsSound is same keep v = record {
    distinct = Distinct-device cs cs' is (All-map _ _ (λ j _. same j) is v.good) v.distinct;
    good = All-map _ _ keep is v.good;
  }

  -- A change to a connection that is not connected.
  other-IsSound :
      (i : ℕ) (is : List ℕ)
      → Absent i is
      → ((j : ℕ) → (i == j) ≡ false → (cs' j ≡ cs j) × (ph' j ≡ ph j))
      → IsSound cs is ph
      → IsSound cs' is ph'
  other-IsSound i is away same v = record {
    distinct =
        Distinct-device cs cs' is (All-map _ _ (λ j h. ap (λ c. c.device_id) (same j h).0) is away)
          v.distinct;
    good = All-map _ _ (λ j h. keep j h.0 h.1) is (All-zip _ _ is away v.good);
  }
    where
      keep : (j : ℕ) → (i == j) ≡ false → IsGood cs ph j → IsGood cs' ph' j
      keep j h g = rw ((same j h).0, (same j h).1) g

module _ (cs : ℕ → Connection) (is : List ℕ) (ph : ℕ → Phase) where
  erase-IsSound : (d : DeviceIdentification) → IsSound cs is ph → IsSound cs (erase_in cs d is) ph
  erase-IsSound d v = record {
    distinct = erase_in-Distinct cs d is v.distinct;
    good = erase_in-All cs (IsGood cs ph) d is v.good;
  }

  -- Neither connected before its first message nor while it is not ready.
  unready-Absent : (i : ℕ) → ph i ≡ idle → (cs i).ready ≡ false → IsSound cs is ph → Absent i is
  unready-Absent i p r v = All-map _ _ (λ j g. ground arith) is v.good

  absent-Absent : (i : ℕ) → ph i ≡ absent → IsSound cs is ph → Absent i is
  absent-Absent i p v = All-map _ _ (λ j g. ground arith) is v.good

  unknown-Absent : (i : ℕ) → (cs i).device_id ≡ none → IsSound cs is ph → Absent i is
  unknown-Absent i e v = All-map _ _ (λ j g. ground arith) is v.good

  apart-Absent :
      (i : ℕ) (d : DeviceIdentification) (js : List ℕ)
      → (cs i).device_id ≡ some d
      → All (λ k. is_same d (cs k) ≡ false) js
      → Absent i js
  unfolding is_same
  apart-Absent i d js e h = All-map _ _ (λ k q. ground (arith, device_eq.same_refl d)) js h

  other-Absent :
      (i j : ℕ) (d : DeviceIdentification)
      → (cs i).device_id ≡ some d
      → find_in cs d is ≡ some j
      → (priority_of (cs j) == d.priority) ≡ false
      → IsSound cs is ph
      → Absent i is
  unfolding is_same
  other-Absent i j d e f p v = All-map _ _ away is (find_in_only cs d is j v.distinct f)
    where
      away : (k : ℕ) → (k ≡ j) ⊎ (is_same d (cs k) ≡ false) → (i == k) ≡ false
      away k (inl q) = elim (Bool-cases (i == k)) [
        | inl hit ↦
            let found : i ≡ j = ground arith in
            let there : (cs j).device_id ≡ some d = rw (← found) e in absurd (ground arith)
        | inr miss ↦ miss
      ]
      away k (inr q) = ground (arith, device_eq.same_refl d)

close-IsSound :
    (i : ℕ) (s : Server) (ph : ℕ → Phase)
    → IsSound s.connection s.connected ph
    → IsSound (update i close_socket s).connection s.connected ph
unfolding update
close-IsSound i s ph v =
    change-IsSound s.connection (update i close_socket s).connection ph ph s.connected
      (λ j. ground arith) (λ j g. ground arith) v

remove_device-IsSound :
    (i : ℕ) (d : DeviceIdentification) (s : Server) (ph : ℕ → Phase)
    → (s.connection i).device_id ≡ some d
    → IsSound s.connection s.connected ph
    → let r = remove_device_of s d in IsSound r.connection r.connected ph × Absent i r.connected
unfolding remove_device_of find_connection
remove_device-IsSound i d s ph e v = elim (Option-cases (find_in s.connection d s.connected)) [
  | inl f ↦
      rw (f, remove_device_of)
        (
          v,
          apart-Absent s.connection s.connected ph i d s.connected e
              (find_in-none s.connection d s.connected f),
        )
  | inr (j, f) ↦
      rw (f, remove_device_of)
        (elim (Bool-cases (priority_of (s.connection j) == d.priority)) [
          | inl p ↦ rw p (
            erase-IsSound s.connection s.connected ph d v,
            apart-Absent s.connection s.connected ph i d _ e
                (erase_in_gone s.connection d s.connected v.distinct),
          )
          | inr p ↦ rw p (v, other-Absent s.connection s.connected ph i j d e f p v)
        ])
]

-- Removing a connection keeps the table sound, and the connection is not in it any more.
remove-IsSound :
    (i : ℕ) (s : Server) (ph : ℕ → Phase)
    → IsSound s.connection s.connected ph
    → let r = remove_conn_from_map s i in IsSound r.connection r.connected ph × Absent i r.connected
unfolding remove_conn_from_map update
remove-IsSound i s ph v = elim (Option-cases (s.connection i).device_id) [
  | inl e ↦
      rw (e, remove_conn_from_map)
        (close-IsSound i s ph v, unfold update in unknown-Absent s.connection s.connected ph i e v)
  | inr (d, e) ↦
      let device : ((update i close_socket s).connection i).device_id ≡ some d =
        unfold update in ground arith in
      rw (e, remove_conn_from_map)
        (remove_device-IsSound i d (update i close_socket s) ph device (close-IsSound i s ph v))
]

drop-Sound :
    (i : ℕ) (s : Server) (ph : ℕ → Phase)
    → IsSound s.connection s.connected ph
    → Sound (drop i s ph)
unfolding drop
drop-Sound i s ph v =
    let r = remove_conn_from_map s i in
    let (sound, away) = remove-IsSound i s ph v in
    other-IsSound r.connection r.connection ph (set_phase i gone ph) i r.connected away
      (λ j h. (refl, ground arith)) sound

-- A connection that is not connected joins with a device that no connected one has.
connect-IsSound :
    (i : ℕ) (d : DeviceIdentification) (s : Server) (ph : ℕ → Phase)
    → Absent i s.connected
    → All (λ k. is_same d (s.connection k) ≡ false) s.connected
    → IsSound s.connection s.connected ph
    → let r = connect_new_device s i d in IsSound r.connection r.connected (set_phase i waiting ph)
unfolding connect_new_device update
connect-IsSound i d s ph away apart v =
    let r = connect_new_device s i d in
    let device : (r.connection i).device_id ≡ some d = ground arith in
    let kept =
      other-IsSound s.connection r.connection ph (set_phase i waiting ph) i s.connected away
        (λ j h. (ground arith, ground arith)) v in
    let apart' : All (λ k. is_same d (r.connection k) ≡ false) s.connected =
      All-map _ _ (λ k h. ground arith) s.connected (All-zip _ _ s.connected away apart) in
    record {
      distinct = Distinct-append r.connection d s.connected i device apart' kept.distinct;
      good =
          All-append (IsGood r.connection (set_phase i waiting ph)) s.connected (i ∷ []) kept.good
            ((ground arith, ground arith), tt);
    }
