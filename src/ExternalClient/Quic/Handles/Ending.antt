-- ===== src/ExternalClient/Quic/Handles/Ending.antt =====
-- How the connections of QuicCommunication end: by `stop`, and by an event that another thread interrupts.
use module_gateway.Common.{
  ℕ, Bool, List, true, [], ◌∷◌, Option, none, some, ◌≡◌, ◌≢◌, ◌∙◌, ap, arith, Option-cases, inl,
  inr, false,
}
use module_gateway.ExternalClient.Connection.{connecting}
use module_gateway.ExternalClient.Quic.Streams.{erase}
use module_gateway.ExternalClient.Quic.Handles.{
  Handles, call, start_connection, open_connection, initialize, close_connection,
  close_configuration, close_registration, close_ms_quic, begin_shutdown_complete,
  end_shutdown_complete, stop, open_connections, construct,
}
use module_gateway.ExternalClient.Quic.Handles.Lone.{
  Lone, known, erase-same, Event, Documented, run, run-construct-Lone,
}

-- The event that ends a connection, if there is one.
abbrev pub shutdown_of : Option ℕ → Handles → Handles
shutdown_of none h = h
shutdown_of (some c) h = end_shutdown_complete c (begin_shutdown_complete h)

-- `stop` of a channel that knows its one open connection, which MsQuic ends meanwhile, or that has
-- none: no connection stays open, and every handle is null.
stop_lem :
    (h : Handles)
    → Lone h
    → let ends = shutdown_of h.connection in
      (open_connections (stop ends h).calls ≡ [])
      × ((stop ends h).connection ≡ none)
      × ((stop ends h).config ≡ false)
      × ((stop ends h).registration ≡ false)
      × ((stop ends h).quic ≡ false)
unfolding stop close_connection close_configuration close_registration close_ms_quic
    begin_shutdown_complete end_shutdown_complete call
stop_lem h lone = elim (Option-cases h.connection) [
  | inl e ↦ ground (arith, e, lone)
  | inr (c, e) ↦ ground (arith, e, lone, erase-same c [])
]

-- A channel whose library has opened, whatever else of MsQuic has not: after any calls of the channel,
-- and events that MsQuic raises for the connection that is open, each run whole, `initializeConnection`
-- has not dereferenced a null `quic_`; the connections that were opened and not closed are the one that
-- the channel knows or none, and it knows none exactly if it is not connected. A `stop` then, while
-- which MsQuic ends that connection, leaves no connection open and no handle set.
pub run-construct-stop :
    (registers configures loads : Bool) (es : List Event)
    → Documented es (construct true registers configures loads)
    → (h : Handles) × (run es (construct true registers configures loads) ≡ some h)
      × Lone h
      × (let stopped = stop (shutdown_of h.connection) h in
          (open_connections stopped.calls ≡ [])
          × (stopped.connection ≡ none)
          × (stopped.config ≡ false)
          × (stopped.registration ≡ false)
          × (stopped.quic ≡ false))
run-construct-stop registers configures loads es d =
    let (h, ran, lone) = run-construct-Lone registers configures loads es d in
    (h, ran, lone, stop_lem h lone)

-- The SHUTDOWN_COMPLETE of the connection `c` of a lone channel, with a successful
-- `initializeConnection` after it has stored the state: the channel is connecting with an open
-- connection that it does not know, and that `stop` leaves open.
pub end_shutdown_complete-loses :
    (h : Handles) (c d : ℕ)
    → Lone h
    → h.connection ≡ some c
    → c ≢ d
    → (after : Handles) × (initialize (some d) true (begin_shutdown_complete h) ≡ some after)
      × (let left = end_shutdown_complete c after in
          (left.state ≡ connecting)
          × (left.connection ≡ none)
          × (open_connections left.calls ≡ d ∷ [])
          × (open_connections (stop (λ k. k) left).calls ≡ d ∷ []))
unfolding initialize open_connection start_connection begin_shutdown_complete end_shutdown_complete
    erase stop close_connection close_configuration close_registration close_ms_quic call
end_shutdown_complete-loses h c d lone e ne =
    let one : open_connections h.calls ≡ c ∷ [] = lone.1 ∙ ap known e in
    let over : erase c (d ∷ open_connections h.calls) ≡ d ∷ [] = ground (arith, one, ne) in
    (
      open_connection (some d) true (record h { state = connecting }),
      ground (arith, lone.0),
      ground (arith, lone.0, over),
    )
