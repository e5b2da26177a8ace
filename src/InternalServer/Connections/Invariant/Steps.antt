-- ===== src/InternalServer/Connections/Invariant/Steps.antt =====
-- Each event keeps the connected devices sound.
use module_gateway.Common.{
  ℕ, Bool, true, false, ◌&&◌, ltb, ◌==◌, if◌then◌else◌, All, All-map, All-zip, ◌≡◌, ◌⊎◌, inl, inr,
  arith, Option-cases, Bool-cases,
}
use module_gateway.Structures.Device.{DeviceIdentification}
use module_gateway.Structures.Messages.{
  InternalClient, InternalServer, ResponseType, already_connected,
  higher_priority_already_connected,
}
use module_gateway.InternalServer.Connections.{
  Server, update, close_socket, is_same, find_in, find_connection, priority_of,
  remove_conn_from_map, remove_device_of, change_connection, respond, send_response,
  handle_connection, handle_status, validate_response, response_device,
}
use module_gateway.InternalServer.Connections.Registry.{erase_in-All, find_in-none, find_in_only}
use module_gateway.InternalServer.Connections.System.{Phase, idle, waiting, set_phase}
use module_gateway.InternalServer.Connections.Invariant.{
  IsSound, Absent, change-IsSound, unready-Absent, remove-IsSound, connect-IsSound,
}

-- What stays after a removal was there, with the same device.
remove-All {ℓ} :
    (P : ℕ → Type ℓ) (i : ℕ) (s : Server)
    → All P s.connected
    → All P (remove_conn_from_map s i).connected
unfolding remove_conn_from_map remove_device_of update
remove-All P i s h = elim (Option-cases (s.connection i).device_id) [
  | inl e ↦ rw (e, remove_conn_from_map) h
  | inr (d, e) ↦ rw (e, remove_conn_from_map) (from_device d)
]
  where
    from_device :
        (d : DeviceIdentification) → All P (remove_device_of (update i close_socket s) d).connected
    from_device d = elim (Option-cases (find_connection (update i close_socket s) d)) [
      | inl f ↦ rw (f, remove_device_of) h
      | inr (j, f) ↦
          rw (f, remove_device_of)
            (elim (Bool-cases
              (priority_of ((update i close_socket s).connection j) == d.priority)) [
                | inl p ↦ rw p (erase_in-All (update i close_socket s).connection P d s.connected h)
                | inr p ↦ rw p h
              ])
    ]

remove-device :
    (i j : ℕ) (s : Server)
    → ((remove_conn_from_map s i).connection j).device_id ≡ (s.connection j).device_id
unfolding remove_conn_from_map remove_device_of update
remove-device i j s = ground arith

change-IsSound' :
    (i : ℕ) (d : DeviceIdentification) (s : Server) (ph : ℕ → Phase)
    → Absent i s.connected
    → IsSound s.connection s.connected ph
    → let r = change_connection s i d in IsSound r.connection r.connected (set_phase i waiting ph)
unfolding change_connection find_connection
change-IsSound' i d s ph away v = elim (Option-cases (find_in s.connection d s.connected)) [
  | inl f ↦
      rw (f, change_connection)
        (connect-IsSound i d s ph away (find_in-none s.connection d s.connected f) v)
  | inr (old, f) ↦
      let r = remove_conn_from_map s old in
      let (sound, gone_old) = remove-IsSound old s ph v in
      let only = remove-All _ old s (find_in_only s.connection d s.connected old v.distinct f) in
      let apart = All-map _ _ (kept old) r.connected (All-zip _ _ r.connected gone_old only) in
      rw (f, change_connection) (connect-IsSound i d r ph (remove-All _ old s away) apart sound)
]
  where
    kept :
        (old k : ℕ)
        → ((old == k) ≡ false) × ((k ≡ old) ⊎ (is_same d (s.connection k) ≡ false))
        → is_same d ((remove_conn_from_map s old).connection k) ≡ false
    kept old k (h, inl q) = absurd (ground arith)
    kept old k (h, inr q) = unfold is_same in ground (arith, remove-device old k s)

abbrev pub next_phase : Bool → ℕ → (ℕ → Phase) → ℕ → Phase
next_phase accepted i ph = if accepted then set_phase i waiting ph else ph

pub respond-IsSound :
    (t : ResponseType) (i : ℕ) (d : DeviceIdentification) (s : Server) (ph : ℕ → Phase)
    → IsSound s.connection s.connected ph
    → let r = respond t s i d in IsSound r.connection r.connected ph
unfolding respond send_response
respond-IsSound t i d s ph v =
    elim (Bool-cases ((s.connection i).socket_open && (s.connection i).writable)) [
      | inl e ↦ rw (e, respond, send_response) v
      | inr e ↦ rw (e, respond, send_response) v
    ]

pub handle_connection-IsSound :
    (i : ℕ) (d : DeviceIdentification) (s : Server) (ph : ℕ → Phase)
    → ph i ≡ idle
    → IsSound s.connection s.connected ph
    → let r = handle_connection s i d in IsSound r.0.connection r.0.connected (next_phase r.1 i ph)
unfolding handle_connection find_connection
handle_connection-IsSound i d s ph p v = elim (Bool-cases (s.connection i).ready) [
  | inl busy ↦ rw busy v
  | inr free ↦
      let away = unready-Absent s.connection s.connected ph i p free v in
      rw free (elim (Option-cases (find_in s.connection d s.connected)) [
        | inl f ↦ rw f (connect-IsSound i d s ph away (find_in-none s.connection d s.connected f) v)
        | inr (j, f) ↦ rw f (elim (Bool-cases (d.priority == priority_of (s.connection j))) [
          | inl e ↦ rw e (respond-IsSound already_connected i d s ph v)
          | inr e ↦ rw e (elim (Bool-cases (ltb (priority_of (s.connection j)) d.priority)) [
            | inl l ↦ rw l (respond-IsSound higher_priority_already_connected i d s ph v)
            | inr l ↦ rw l (change-IsSound' i d s ph away v)
          ])
        ])
      ])
]

pub handle_status-IsSound :
    (i : ℕ) (m : InternalClient) (s : Server) (ph : ℕ → Phase)
    → IsSound s.connection s.connected ph
    → let r = handle_status s i m in IsSound r.0.connection r.0.connected (next_phase r.1 i ph)
unfolding handle_status update
handle_status-IsSound i m s ph v = elim (Bool-cases (s.connection i).ready) [
  | inl e ↦ rw e (
      change-IsSound s.connection _ ph (set_phase i waiting ph) s.connected (λ j. ground arith)
        (λ j g. ground arith) v)
  | inr e ↦ rw e v
]

pub validate_response-IsSound :
    (m : InternalServer) (s : Server) (ph : ℕ → Phase)
    → IsSound s.connection s.connected ph
    → let r = validate_response s m in IsSound r.connection r.connected ph
unfolding validate_response send_response update
validate_response-IsSound m s ph v =
    let d = response_device m in
    elim (Option-cases (find_connection s d)) [
      | inl f ↦ rw (f, validate_response) v
      | inr (i, f) ↦
          rw (f, validate_response)
            (elim (Bool-cases (priority_of (s.connection i) == d.priority)) [
              | inl p ↦ rw p (ready-IsSound i m)
              | inr p ↦ rw p v
            ])
    ]
  where
    ready-IsSound :
        (i : ℕ) (m : InternalServer)
        → let r = update i (λ c. record c { ready = true }) (send_response s i m).0 in
          IsSound r.connection r.connected ph
    ready-IsSound i m =
        elim (Bool-cases ((s.connection i).socket_open && (s.connection i).writable)) [
          | inl e ↦
              rw (e, send_response)
                (change-IsSound s.connection _ ph ph s.connected (λ j. ground arith)
                  (λ j g. ground arith) v)
          | inr e ↦
              rw (e, send_response)
                (change-IsSound s.connection _ ph ph s.connected (λ j. ground arith)
                  (λ j g. ground arith) v)
        ]
