-- ===== src/ExternalClient/Client/Reporting.antt =====
-- `handleAggregatedMessages` while its connection is established: the statuses of the queue go to the
-- external server.
use module_gateway.Common.{
  ℕ, zero, suc, false, List, [], ◌∷◌, ◌++◌, some, map, length, All, ◌≡◌, refl, ap, sym, subst, ◌∙◌,
  arith,
}
use mathlib.Core.List.{append-nil}
use module_gateway.Common.Dict.{find}
use module_gateway.Common.Dict.Numbers.{number_eq, number_refl}
use module_gateway.Common.Dict.Laws.{find-modify, find_of_contains}
use module_gateway.Structures.Messages.{DeviceStatus, InternalClientMessage}
use module_gateway.ExternalClient.Connection.{ExternalConnection, connected}
use module_gateway.ExternalClient.Connection.Sending.{waiting}
use module_gateway.ExternalClient.Connection.Reports.{
  CanSend, numbered, send_all, send_all-numbered, send_running, send_running-CanSend, status_in,
}
use module_gateway.ExternalClient.Client.{
  ExternalClient, on_connection, status_of, send_status_to, send_status_with,
}
use module_gateway.ExternalClient.Client.ConnectSequence.{
  Attempt, handle_aggregated_messages, queue_round, reconnect_round, send_status, with_queue,
}

-- Rounds in which nothing arrives.
unfoldable pub rounds : ℕ → Attempt → ExternalClient → ExternalClient
rounds zero t c = c
rounds (suc n) t c = rounds n t (handle_aggregated_messages t t [] c)

-- A message with a status, of a module that leads to the connection `i`.
abbrev pub GoesTo : ℕ → ExternalClient → InternalClientMessage → Type 0
GoesTo i c m =
    (m.disconnected ≡ false)
    × (find number_eq (status_of m.message).device.module_number c.connection_map ≡ some i)

abbrev pub statuses_of : List InternalClientMessage → List DeviceStatus
statuses_of ms = map (λ m. status_of m.message) ms

module _ (t : Attempt) (i : ℕ) where
  send_status-running :
      (c : ExternalClient) (m : InternalClientMessage) (k : ExternalConnection)
      → find number_eq i c.connections ≡ some k
      → k.state ≡ connected
      → GoesTo i c m
      → (send_status t m c).0 ≡ on_connection i (send_running (status_of m.message)) c
  unfolding send_status send_status_with send_status_to
  send_status-running c m k f up g = ground (arith, f, up, g.0, g.1)

  queue_round_lem :
      (c : ExternalClient) (m : InternalClientMessage) (ms : List InternalClientMessage)
      → c.to_external ≡ m ∷ ms
      → queue_round t [] c ≡ (send_status t m (with_queue ms c)).0
  unfolding queue_round
  queue_round_lem c m ms q = ground (arith, q, append-nil ms)

  round_lem :
      (c : ExternalClient) (m : InternalClientMessage) (ms : List InternalClientMessage)
      (k : ExternalConnection)
      → c.to_external ≡ m ∷ ms
      → c.reconnect_queue ≡ []
      → find number_eq i c.connections ≡ some k
      → k.state ≡ connected
      → GoesTo i c m
      → handle_aggregated_messages t t [] c
        ≡ on_connection i (send_running (status_of m.message)) (with_queue ms c)
  unfolding handle_aggregated_messages reconnect_round
  round_lem c m ms k q none_again f up g =
      let quiet : reconnect_round t c ≡ c = ground (arith, none_again) in
      ap (queue_round t []) quiet
      ∙ queue_round_lem c m ms q
      ∙ send_status-running (with_queue ms c) m k f up g

  rounds_lem :
      (ms : List InternalClientMessage) (c : ExternalClient) (k : ExternalConnection)
      → c.to_external ≡ ms
      → c.reconnect_queue ≡ []
      → find number_eq i c.connections ≡ some k
      → CanSend k (statuses_of ms)
      → All (GoesTo i c) ms
      → let after = rounds (length ms) t c in
        (after.to_external ≡ [])
        × (find number_eq i after.connections ≡ some (send_all (statuses_of ms) k))
  unfolding rounds
  rounds_lem [] c k q none_again f can all = (q, f)
  rounds_lem (m ∷ ms) c k q none_again f can all =
      let s = status_of m.message in
      let c' = on_connection i (send_running s) (with_queue ms c) in
      let one = round_lem c m ms k q none_again f can.established all.0 in
      let found : find number_eq i c'.connections ≡ some (send_running s k) =
        ground (arith, find-modify number_eq i i (send_running s) c.connections, number_refl i) in
      let (a, there) =
        find_of_contains number_eq s.device.module_number k.error_aggregators can.known.0 in
      let can' = send_running-CanSend s (statuses_of ms) a k there can in
      subst
        (λ x.
          ((rounds (length ms) t x).to_external ≡ [])
          × (find number_eq i (rounds (length ms) t x).connections
              ≡ some (send_all (statuses_of (m ∷ ms)) k)))
        (sym one) (rounds_lem ms c' (send_running s k) refl none_again found can' all.1)

  -- The queue of aggregated messages holds statuses of modules that lead to an established connection,
  -- no disconnect messages; its channel takes them all, and no connection is to be made again. After
  -- as many rounds as messages the queue is empty, the connection is still established and has sent
  -- the statuses, in order, with counters that follow each other modulo 2 ^ 32, and nothing else, and
  -- each waits for its response under its counter.
  pub rounds-numbered :
      (c : ExternalClient) (k : ExternalConnection)
      → let ms = c.to_external in
        let sent = numbered k.client_message_counter (statuses_of ms) in
        c.reconnect_queue ≡ []
        → find number_eq i c.connections ≡ some k
        → CanSend k (statuses_of ms)
        → All (GoesTo i c) ms
        → let after = rounds (length ms) t c in
          (k' : ExternalConnection) × (after.to_external ≡ [])
          × (find number_eq i after.connections ≡ some k')
          × (k'.state ≡ connected)
          × (map status_in k'.channel.outbox
              ≡ map status_in k.channel.outbox ++ map (λ p. some p) sent)
          × (k'.sent_messages.not_acked_statuses
              ≡ k.sent_messages.not_acked_statuses ++ map (λ p. waiting p.0 p.1) sent)
  rounds-numbered c k none_again f can all =
      let ms = c.to_external in
      let (empty, found) = rounds_lem ms c k refl none_again f can all in
      let (sent, waits, up) = send_all-numbered (statuses_of ms) k can in
      (send_all (statuses_of ms) k, empty, found, up, sent, waits)
