-- ===== src/ExternalClient/Connection/Reports.antt =====
-- Statuses that an established connection sends one after the other.
use module_gateway.Common.{
  ℕ, ◌+◌, ◌%◌, ◌^◌, Bool, true, List, [], ◌∷◌, ◌++◌, Option, none, some, map, All, All-map, ◌≡◌, ap,
  subst, sym, ◌∙◌, arith,
}
use mathlib.Core.List.{append_assoc, append-nil, map-append}
use module_gateway.Common.Dict.{Dict, find, contains}
use module_gateway.Common.Dict.Numbers.{number_eq}
use module_gateway.Common.Dict.Laws.{contains-modify, find_of_contains}
use module_gateway.Structures.Buffer.{empty_buffer}
use module_gateway.Structures.Messages.{DeviceStatus}
use module_gateway.ExternalClient.Messages.{ExternalClient, status, StatusState}
use module_gateway.ExternalClient.SentMessages.{NotAckedStatus}
use module_gateway.ExternalClient.Connection.{
  ErrorAggregator, ExternalConnection, connected, aggregate, next, rest, send, send_marked,
  send_status,
}
use module_gateway.ExternalClient.Connection.Sending.{waiting, send_status-sent}

abbrev pub send_running : DeviceStatus → ExternalConnection → ExternalConnection
send_running s k = send_status s StatusState.running empty_buffer k

abbrev pub send_all : List DeviceStatus → ExternalConnection → ExternalConnection
send_all [] k = k
send_all (s ∷ ss) k = send_all ss (send_running s k)

-- The channel takes a message for each status.
abbrev pub Takes : List DeviceStatus → List Bool → Type 0
Takes [] bs = Unit
Takes (s ∷ ss) bs = (next bs ≡ true) × Takes ss (rest bs)

-- An established connection that can send these statuses, which are of its modules.
pub record CanSend (k : ExternalConnection) (ss : List DeviceStatus) : Type 0 where
  pub established : k.state ≡ connected
  pub takes : Takes ss k.channel.accepts
  pub known : All (λ s. contains number_eq s.device.module_number k.error_aggregators ≡ true) ss

-- The statuses with the counters that follow `k`.
abbrev pub numbered : ℕ → List DeviceStatus → List (ℕ × DeviceStatus)
numbered k [] = []
numbered k (s ∷ ss) =
    let next_counter = (k + 1) % 2 ^ 32 in (next_counter, s) ∷ numbered next_counter ss

-- What the server reads of a message that is a status.
abbrev pub status_in : ExternalClient → Option (ℕ × DeviceStatus)
status_in (status s) = some (s.message_counter, s.device_status)
status_in _ = none

contains-aggregate :
    (n : ℕ) (s : DeviceStatus) (e : Dict ℕ ErrorAggregator)
    → contains number_eq n (aggregate s e) ≡ contains number_eq n e
unfolding aggregate
contains-aggregate n s e = contains-modify number_eq n s.device.module_number _ e

send_running_lem :
    (s : DeviceStatus) (a : ErrorAggregator) (k : ExternalConnection) (n : ℕ)
    → find number_eq s.device.module_number k.error_aggregators ≡ some a
    → next k.channel.accepts ≡ true
    → let after = send_running s k in
      (after.channel.accepts ≡ rest k.channel.accepts)
      × (contains number_eq n after.error_aggregators ≡ contains number_eq n k.error_aggregators)
unfolding send_status send_marked send
send_running_lem s a k n f t =
    (ground (arith, f, t), ground (arith, f, t, contains-aggregate n s k.error_aggregators))

pub send_running-CanSend :
    (s : DeviceStatus) (ss : List DeviceStatus) (a : ErrorAggregator) (k : ExternalConnection)
    → find number_eq s.device.module_number k.error_aggregators ≡ some a
    → CanSend k (s ∷ ss)
    → CanSend (send_running s k) ss
send_running-CanSend s ss a k f c =
    let (accepts, _) = send_running_lem s a k 0 f c.takes.0 in
    let (_, _, _, state) = send_status-sent s StatusState.running empty_buffer a k f c.takes.0 in
    record {
      established = state ∙ c.established;
      takes = subst (λ bs. Takes ss bs) (sym accepts) c.takes.1;
      known =
          All-map _ _
            (λ x there. (send_running_lem s a k x.device.module_number f c.takes.0).1 ∙ there) ss
            c.known.1;
    }

-- An established connection sends statuses of its modules, which the channel takes: they stay in order,
-- with counters that follow each other modulo 2 ^ 32, after what was sent before; each waits for its
-- response under its counter; and the connection stays established.
pub send_all-numbered :
    (ss : List DeviceStatus) (k : ExternalConnection)
    → CanSend k ss
    → let after = send_all ss k in
      let sent = numbered k.client_message_counter ss in
      (map status_in after.channel.outbox
        ≡ map status_in k.channel.outbox ++ map (λ p. some p) sent)
      × (after.sent_messages.not_acked_statuses
          ≡ k.sent_messages.not_acked_statuses ++ map (λ p. waiting p.0 p.1) sent)
      × (after.state ≡ connected)
send_all-numbered [] k c = (
  sym (append-nil (map status_in k.channel.outbox)),
  sym (append-nil k.sent_messages.not_acked_statuses),
  c.established,
)
send_all-numbered (s ∷ ss) k c =
    let (a, f) = find_of_contains number_eq s.device.module_number k.error_aggregators c.known.0 in
    let (outbox, waits, counter, _) =
      send_status-sent s StatusState.running empty_buffer a k f c.takes.0 in
    let (sent, still, up) =
      send_all-numbered ss (send_running s k) (send_running-CanSend s ss a k f c) in
    let next_counter = (k.client_message_counter + 1) % 2 ^ 32 in
    let rest_sent : List (Option (ℕ × DeviceStatus)) =
      map (λ p. some p) (numbered next_counter ss) in
    let rest_waits : List NotAckedStatus = map (λ p. waiting p.0 p.1) (numbered next_counter ss) in
    let k' = send_running s k in
    (
      sent
          ∙ ap (λ n. map status_in k'.channel.outbox ++ map (λ p. some p) (numbered n ss)) counter
          ∙ ap (λ l. map status_in l ++ rest_sent) outbox
          ∙ ap (λ l. l ++ rest_sent) (map-append status_in k.channel.outbox _)
          ∙ append_assoc (map status_in k.channel.outbox) (some (next_counter, s) ∷ []) rest_sent,
      still
          ∙ ap
              (λ n.
                k'.sent_messages.not_acked_statuses ++ map (λ p. waiting p.0 p.1) (numbered n ss))
              counter
          ∙ ap (λ l. l ++ rest_waits) waits
          ∙ append_assoc k.sent_messages.not_acked_statuses (waiting next_counter s ∷ [])
              rest_waits,
      up,
    )
