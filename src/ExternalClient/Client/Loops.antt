-- ===== src/ExternalClient/Client/Loops.antt =====
-- `sendStatus` inside a connect sequence, and the loop that waits for forced devices.
use module_gateway.Common.{
  ℕ, refl, true, Bool, List, [], ◌∷◌, ◌++◌, ◌∙◌, subst, sym, map, is_nil, ap, some, ◌≡◌, arith,
}
use module_gateway.Common.Dict.{find}
use module_gateway.Common.Dict.Laws.{find-modify}
use module_gateway.Common.Dict.Numbers.{number_eq, number_refl}
use module_gateway.Structures.Device.{DeviceIdentification}
use module_gateway.Structures.Messages.{DeviceStatus, InternalClientMessage}
use module_gateway.ExternalClient.SentMessages.{any_same, erase_device, clear_all, clear_all_timers}
use module_gateway.ExternalClient.Connection.{
  ExternalConnection, fill_error_aggregator, fill_error_aggregator_with_not_acked_statuses,
  is_module_supported,
}
use module_gateway.ExternalClient.Client.{
  ExternalClient, status_of, send_status_with, send_status_to,
}
use module_gateway.ExternalClient.Client.Draining.{is_module_supported-fill}
use module_gateway.ExternalClient.Client.ConnectSequence.{
  Attempt, supports, with_queue, take_forced, wait_for_forced, wait_for_forced, send_status,
  send_status_inside,
}

-- Inside a connect sequence, sending a status starts no other, so that its recursion ends: the result
-- is the same whatever would be started, and the client is still inside the sequence, with the same
-- queue and the same reconnect items.
pub send_status-inside :
    (t : Attempt) (m : InternalClientMessage) (c : ExternalClient)
    → c.inside_connect_sequence ≡ true
    → let sent = (send_status t m c).0 in
      (sent ≡ send_status_inside m c)
      × (sent.inside_connect_sequence ≡ true)
      × (sent.to_external ≡ c.to_external)
      × (sent.reconnect_queue ≡ c.reconnect_queue)
unfolding send_status send_status_with send_status_to
send_status-inside t m c inside =
    (ground (arith, inside), ground (arith, inside), ground (arith, inside), ground (arith, inside))

fill_error_aggregator_devices_lem :
    (s : DeviceStatus) (k : ExternalConnection)
    → (fill_error_aggregator s k).sent_messages.connected_devices
      ≡ k.sent_messages.connected_devices
unfolding fill_error_aggregator fill_error_aggregator_with_not_acked_statuses clear_all
    clear_all_timers
fill_error_aggregator_devices_lem s k = ground arith

-- A message, be it a disconnect message or not, whose device is waited for is taken off the queue as
-- a status: the device is no longer waited for, and the connection counts the same devices as
-- connected as before.
pub take_forced-any :
    (i : ℕ) (ds : List DeviceIdentification) (m : InternalClientMessage)
    (ms : List InternalClientMessage) (c : ExternalClient) (k : ExternalConnection)
    → find number_eq i c.connections ≡ some k
    → supports i c (status_of m.message).device.module_number ≡ true
    → any_same (status_of m.message).device ds ≡ true
    → let s = status_of m.message in
      let (taken, left) = take_forced i ds (with_queue (m ∷ ms) c) in
      (taken.to_external ≡ ms)
      × (left ≡ erase_device s.device ds)
      × (find number_eq i taken.connections ≡ some (fill_error_aggregator s k))
      × ((fill_error_aggregator s k).sent_messages.connected_devices
          ≡ k.sent_messages.connected_devices)
unfolding take_forced
take_forced-any i ds m ms c k there supported waited =
    let found =
      find-modify number_eq i i (fill_error_aggregator (status_of m.message)) c.connections in
    (
      ground (arith, supported, waited),
      ground (arith, supported, waited),
      ground (arith, supported, waited, found, number_refl i, there),
      fill_error_aggregator_devices_lem (status_of m.message) k,
    )

-- A connection that takes the statuses of all messages.
unfoldable pub filled_all : List InternalClientMessage → ExternalConnection → ExternalConnection
filled_all [] k = k
filled_all (m ∷ ms) k = filled_all ms (fill_error_aggregator (status_of m.message) k)

-- Each message is of a supported module, and of a device that is still waited for; after the last
-- one none is.
abbrev pub Delivers : (ℕ → Bool) → List DeviceIdentification → List InternalClientMessage → Type 0
Delivers supported ds [] = is_nil ds ≡ true
Delivers supported ds (m ∷ ms) =
    let d = (status_of m.message).device in
    (supported d.module_number ≡ true)
    × (any_same d ds ≡ true)
    × Delivers supported (erase_device d ds) ms

filled_all_devices_lem :
    (ms : List InternalClientMessage) (k : ExternalConnection)
    → (filled_all ms k).sent_messages.connected_devices ≡ k.sent_messages.connected_devices
unfolding filled_all
filled_all_devices_lem [] k = refl
filled_all_devices_lem (m ∷ ms) k =
    filled_all_devices_lem ms (fill_error_aggregator (status_of m.message) k)
    ∙ fill_error_aggregator_devices_lem (status_of m.message) k

wait_for_forced-step :
    (i : ℕ) (m : InternalClientMessage) (rounds : List (List InternalClientMessage))
    (ds : List DeviceIdentification) (c : ExternalClient)
    → c.to_external ≡ []
    → any_same (status_of m.message).device ds ≡ true
    → let step = take_forced i ds (with_queue (m ∷ []) c) in
      wait_for_forced i ((m ∷ []) ∷ rounds) ds c ≡ wait_for_forced i rounds step.1 step.0
unfolding wait_for_forced any_same
wait_for_forced-step i m rounds [] c e h = absurd (ground (arith, h))
wait_for_forced-step i m rounds (d ∷ ds) c e h =
    ap
      (λ q.
        let step = take_forced i (d ∷ ds) (with_queue (q ++ m ∷ []) c) in
        wait_for_forced i rounds step.1 step.0)
      e

wait_for_forced_lem :
    (i : ℕ) (supported : ℕ → Bool) (ms : List InternalClientMessage)
    (ds : List DeviceIdentification) (c : ExternalClient) (k : ExternalConnection)
    → find number_eq i c.connections ≡ some k
    → ((n : ℕ) → is_module_supported k n ≡ supported n)
    → c.to_external ≡ []
    → Delivers supported ds ms
    → let (after, left) = wait_for_forced i (map (λ m. m ∷ []) ms) ds c in
      (left ≡ [])
      × (after.to_external ≡ [])
      × (find number_eq i after.connections ≡ some (filled_all ms k))
unfolding wait_for_forced filled_all
wait_for_forced_lem i supported [] [] c k there same none_yet h = (refl, none_yet, there)
wait_for_forced_lem i supported [] (d ∷ ds) c k there same none_yet h = absurd (ground (arith, h))
wait_for_forced_lem i supported (m ∷ ms) ds c k there same none_yet h =
    let s = status_of m.message in
    let step = take_forced i ds (with_queue (m ∷ []) c) in
    let supports_it : supports i c s.device.module_number ≡ true =
      ground (arith, there, same s.device.module_number, h.0) in
    let (emptied, left, filled, devices) = take_forced-any i ds m [] c k there supports_it h.1 in
    let later =
      wait_for_forced_lem i supported ms step.1 step.0 (fill_error_aggregator s k) filled
        (λ n. is_module_supported-fill s k n ∙ same n) emptied
        (subst (λ l. Delivers supported l ms) (sym left) h.2) in
    let first = wait_for_forced-step i m (map (λ x. x ∷ []) ms) ds c none_yet h.1 in
    (
      ap (λ r. r.1) first ∙ later.0,
      ap (λ r. r.0.to_external) first ∙ later.1,
      ap (λ r. find number_eq i r.0.connections) first ∙ later.2,
    )

-- When the queue is empty and each round then brings a message of a device that is waited for, up to
-- the last of them, the loop ends with no device left and an empty queue, and the connection has
-- taken the statuses of all the messages. It has taken disconnect messages as statuses too: it counts
-- the same devices as connected as before.
pub wait_for_forced-ends :
    (i : ℕ) (ms : List InternalClientMessage) (ds : List DeviceIdentification) (c : ExternalClient)
    (k : ExternalConnection)
    → find number_eq i c.connections ≡ some k
    → c.to_external ≡ []
    → Delivers (is_module_supported k) ds ms
    → let (after, left) = wait_for_forced i (map (λ m. m ∷ []) ms) ds c in
      (left ≡ [])
      × (after.to_external ≡ [])
      × (find number_eq i after.connections ≡ some (filled_all ms k))
      × ((filled_all ms k).sent_messages.connected_devices ≡ k.sent_messages.connected_devices)
wait_for_forced-ends i ms ds c k there none_yet h =
    let (left, emptied, filled) =
      wait_for_forced_lem i (is_module_supported k) ms ds c k there (λ n. refl) none_yet h in
    (left, emptied, filled, filled_all_devices_lem ms k)
