-- ===== src/InternalServer/Connections/Invariant/Reachable.antt =====
-- Every state that the server reaches has sound connected devices.
use module_gateway.Common.{
  ℕ, Bool, true, false, List, [], ◌∷◌, Option, none, some, ◌≡◌, inl, inr, refl, arith, Option-cases,
  Bool-cases,
}
use module_gateway.Structures.Device.{DeviceIdentification}
use module_gateway.Structures.Messages.{InternalClient, device_status, device_connect, nothing}
use module_gateway.InternalServer.Connections.{
  Server, update, find_connection, begin_message, end_message, handle_disconnect,
}
use module_gateway.InternalServer.Connections.System.{
  System, Phase, absent, idle, waiting, gone, Event, accepts, receives, finishes, fails, responds,
  disconnects, peer_changes, set_phase, init, continue_if, accept_in, receive_in, finish_in,
  fail_in, step, run,
}
use module_gateway.InternalServer.Connections.Invariant.{
  IsSound, Sound, change-IsSound, other-IsSound, absent-Absent, remove-IsSound, drop-Sound,
}
use module_gateway.InternalServer.Connections.Invariant.Steps.{
  next_phase, handle_connection-IsSound, handle_status-IsSound, validate_response-IsSound,
}

handle_disconnect-IsSound :
    (d : DeviceIdentification) (s : Server) (ph : ℕ → Phase)
    → IsSound s.connection s.connected ph
    → let r = handle_disconnect s d in IsSound r.connection r.connected ph
unfolding handle_disconnect
handle_disconnect-IsSound d s ph v = elim (Option-cases (find_connection s d)) [
  | inl f ↦ rw (f, handle_disconnect) v
  | inr (i, f) ↦ rw (f, handle_disconnect) (remove-IsSound i s ph v).0
]

continue_if-Sound :
    (accepted : Bool) (i : ℕ) (s : Server) (ph : ℕ → Phase)
    → IsSound s.connection s.connected (next_phase accepted i ph)
    → Sound (continue_if accepted i waiting s ph)
unfolding continue_if
continue_if-Sound true i s ph v = v
continue_if-Sound false i s ph v = drop-Sound i s ph v

module _ (parse : List ℕ → Option InternalClient) where
  accept-Sound :
      (i : ℕ) (y : System) (p : Phase) → y.phase i ≡ p → Sound y → Sound (accept_in parse p i y)
  unfolding accept_in update
  accept-Sound i y absent e v =
      other-IsSound y.server.connection _ y.phase (set_phase i idle y.phase) i y.server.connected
        (absent-Absent y.server.connection y.server.connected y.phase i e v)
        (λ j h. (ground arith, ground arith)) v
  accept-Sound i y idle e v = v
  accept-Sound i y waiting e v = v
  accept-Sound i y gone e v = v

  begin_message-IsSound :
      (i : ℕ) (bytes : List ℕ) (s : Server) (ph : ℕ → Phase)
      → ph i ≡ idle
      → IsSound s.connection s.connected ph
      → let r = begin_message parse s i bytes in
        IsSound r.0.connection r.0.connected (next_phase r.1 i ph)
  unfolding begin_message
  begin_message-IsSound i bytes s ph p v = go (parse bytes) refl
    where
      go :
          (o : Option InternalClient)
          → parse bytes ≡ o
          → let r = begin_message parse s i bytes in
            IsSound r.0.connection r.0.connected (next_phase r.1 i ph)
      go none e = rw (e, begin_message) v
      go (some (device_status m)) e =
          rw (e, begin_message) (handle_status-IsSound i (device_status m) s ph v)
      go (some (device_connect d)) e =
          rw (e, begin_message) (handle_connection-IsSound i d s ph p v)
      go (some nothing) e = rw (e, begin_message) v

  receive-Sound :
      (i : ℕ) (bytes : List ℕ) (y : System) (p : Phase)
      → y.phase i ≡ p
      → Sound y
      → Sound (receive_in parse p i bytes y)
  unfolding receive_in
  receive-Sound i bytes y idle e v =
      let r = begin_message parse y.server i bytes in
      continue_if-Sound r.1 i r.0 y.phase (begin_message-IsSound i bytes y.server y.phase e v)
  receive-Sound i bytes y absent e v = v
  receive-Sound i bytes y waiting e v = v
  receive-Sound i bytes y gone e v = v

  finish-Sound :
      (i : ℕ) (stopped : Bool) (y : System) (p : Phase)
      → y.phase i ≡ p
      → Sound y
      → Sound (finish_in parse p i stopped y)
  unfolding finish_in continue_if
  finish-Sound i stopped y waiting e v = elim (Bool-cases (end_message stopped y.server i)) [
    | inl h ↦ rw h (
        change-IsSound y.server.connection y.server.connection y.phase (set_phase i idle y.phase)
          y.server.connected (λ j. refl) (λ j g. ground arith) v)
    | inr h ↦ rw h (drop-Sound i y.server y.phase v)
  ]
  finish-Sound i stopped y idle e v = v
  finish-Sound i stopped y absent e v = v
  finish-Sound i stopped y gone e v = v

  fail-Sound : (i : ℕ) (y : System) (p : Phase) → Sound y → Sound (fail_in parse p i y)
  unfolding fail_in
  fail-Sound i y idle v = drop-Sound i y.server y.phase v
  fail-Sound i y waiting v = v
  fail-Sound i y absent v = v
  fail-Sound i y gone v = v

  step-Sound : (y : System) (v : Event) → Sound y → Sound (step parse y v)
  unfolding step update
  step-Sound y (accepts i) h = accept-Sound i y (y.phase i) refl h
  step-Sound y (receives i bytes) h = receive-Sound i bytes y (y.phase i) refl h
  step-Sound y (finishes i stopped) h = finish-Sound i stopped y (y.phase i) refl h
  step-Sound y (fails i) h = fail-Sound i y (y.phase i) h
  step-Sound y (responds m) h = validate_response-IsSound m y.server y.phase h
  step-Sound y (disconnects d) h = handle_disconnect-IsSound d y.server y.phase h
  step-Sound y (peer_changes i w) h =
      change-IsSound y.server.connection _ y.phase y.phase y.server.connected (λ j. ground arith)
        (λ j g. ground arith) h

  run-Sound : (vs : List Event) (y : System) → Sound y → Sound (run parse y vs)
  unfolding run
  run-Sound [] y h = h
  run-Sound (v ∷ vs) y h = run-Sound vs (step parse y v) (step-Sound y v h)

  -- After any sequence of accepted connections, messages, ended waits, failed receives, responses
  -- and forced disconnects, in any order, from the server's start: no two connected connections
  -- have the same device, and each connected one has a device and a handler that waits for the
  -- module handler's answer or has had one.
  pub run-init-Sound : (vs : List Event) → Sound (run parse init vs)
  run-init-Sound vs = run-Sound vs init (record { distinct = tt; good = tt })
