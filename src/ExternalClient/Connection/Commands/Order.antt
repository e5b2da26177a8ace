-- ===== src/ExternalClient/Connection/Commands/Order.antt =====
-- What a run of accepted commands has done.
use text.Mathlib.TextEquality.{eq_iff}
use mathlib.Core.List.{append_assoc, append-nil}
use module_gateway.Common.{
  ℕ, ◌+◌, ◌%◌, ◌^◌, Bool, true, false, List, [], ◌∷◌, ◌++◌, map, if◌then◌else◌, ◌≡◌, ◌⊎◌, sym, All,
  ap, ◌∙◌, arith, Option-cases, Bool-cases, inl, inr, subst,
}
use module_gateway.Common.Dict.{find}
use module_gateway.Common.Dict.Numbers.{number_eq}
use module_gateway.Structures.ReturnCode.{is_ok}
use module_gateway.Structures.Messages.{DeviceCommand}
use module_gateway.ExternalClient.Messages.{Command}
use module_gateway.ExternalClient.SentMessages.{SentMessagesHandler, is_device_connected}
use module_gateway.ExternalClient.Connection.{ExternalConnection, send}
use module_gateway.ExternalClient.Connection.Commands.{answer_command, handle_command}

-- Commands one after another, as long as they are accepted.
unfoldable pub handle_commands : List Command → ExternalConnection → ExternalConnection × Bool
handle_commands [] c = (c, true)
handle_commands (m ∷ ms) c =
    let (handled, rc) = handle_command m c in
    elim (is_ok rc) [ true ↦ handle_commands ms handled | false ↦ (handled, false) ]

-- Each counter is the one before it plus 1, as an unsigned number of 32 bits. After 0 any may follow.
abbrev pub Consecutive : ℕ → List ℕ → Type 0
Consecutive last [] = Unit
Consecutive last (n ∷ ns) = ((last ≡ 0) ⊎ (n ≡ (last + 1) % 2 ^ 32)) × Consecutive n ns

-- The commands of connected devices.
abbrev pub for_connected : SentMessagesHandler → List Command → List DeviceCommand
for_connected h [] = []
for_connected h (m ∷ ms) =
    if is_device_connected h m.device_command.device
    then m.device_command ∷ for_connected h ms
    else for_connected h ms

-- An accepted command.
record Accepted (m : Command) (c : ExternalConnection) : Type 0 where
  session : m.session_id ≡ c.session_id
  order :
      (c.server_message_counter ≡ 0) ⊎ (m.message_counter ≡ (c.server_message_counter + 1) % 2 ^ 32)
  counter : (handle_command m c).0.server_message_counter ≡ m.message_counter
  same_session : (handle_command m c).0.session_id ≡ c.session_id
  same_devices : (handle_command m c).0.sent_messages ≡ c.sent_messages
  queue :
      (handle_command m c).0.command_queue
      ≡ c.command_queue ++ for_connected c.sent_messages (m ∷ [])

handle_command-Accepted :
    (m : Command) (c : ExternalConnection) → is_ok (handle_command m c).1 ≡ true → Accepted m c
unfolding handle_command answer_command send
handle_command-Accepted m c h =
    elim (Option-cases (find number_eq m.device_command.device.module_number c.error_aggregators)) [
      | inl e ↦ absurd (ground arith)
      | inr (a, e) ↦ ground (arith, eq_iff m.session_id c.session_id, append-nil c.command_queue)
    ]

-- What is queued, for a first command and the rest.
for_connected_cons_lem :
    (h : SentMessagesHandler) (m : Command) (ms : List Command)
    → for_connected h (m ∷ ms) ≡ for_connected h (m ∷ []) ++ for_connected h ms
for_connected_cons_lem h m ms = elim (Bool-cases (is_device_connected h m.device_command.device)) [
  | inl p ↦ rw (p)
  | inr p ↦ rw (p)
]

handle_commands_accepted_lem :
    (m : Command) (ms : List Command) (c : ExternalConnection)
    → is_ok (handle_command m c).1 ≡ true
    → handle_commands (m ∷ ms) c ≡ handle_commands ms (handle_command m c).0
unfolding handle_commands
handle_commands_accepted_lem m ms c p = rw (p, handle_commands)

handle_commands_refused_lem :
    (m : Command) (ms : List Command) (c : ExternalConnection)
    → is_ok (handle_command m c).1 ≡ false
    → (handle_commands (m ∷ ms) c).1 ≡ false
unfolding handle_commands
handle_commands_refused_lem m ms c p = rw (p, handle_commands)

-- If each of a run of commands is accepted, then each has the session of the connection; the counter of
-- each is the counter before it plus 1, modulo 2 ^ 32, unless the counter before it is 0, as at the
-- start of a connection, when any counter is accepted; and the commands of the connected devices are
-- queued, in order, and no others.
pub handle_commands-accepted :
    (ms : List Command) (c : ExternalConnection)
    → (handle_commands ms c).1 ≡ true
    → Consecutive c.server_message_counter (map (λ m. m.message_counter) ms)
      × All (λ m. m.session_id ≡ c.session_id) ms
      × ((handle_commands ms c).0.command_queue
          ≡ c.command_queue ++ for_connected c.sent_messages ms)
unfolding handle_commands
handle_commands-accepted [] c h = (tt, tt, sym (append-nil c.command_queue))
handle_commands-accepted (m ∷ ms) c h = elim (Bool-cases (is_ok (handle_command m c).1)) [
  | inl p ↦
      let v = handle_command-Accepted m c p in
      let step = handle_commands_accepted_lem m ms c p in
      let after = (handle_command m c).0 in
      let (order, session, queue) = handle_commands-accepted ms after (rw step at h) in
      (
        (v.order, subst (λ n. Consecutive n (map (λ x. x.message_counter) ms)) v.counter order),
        (v.session, subst (λ i. All (λ x. x.session_id ≡ i) ms) v.same_session session),
        ap (λ r. r.0.command_queue) step
            ∙ queue
            ∙ ap (λ h. after.command_queue ++ for_connected h ms) v.same_devices
            ∙ ap (λ q. q ++ for_connected c.sent_messages ms) v.queue
            ∙ append_assoc c.command_queue (for_connected c.sent_messages (m ∷ []))
                (for_connected c.sent_messages ms)
            ∙ ap (λ q. c.command_queue ++ q) (sym (for_connected_cons_lem c.sent_messages m ms)),
      )
  | inr p ↦ absurd (ground (arith, handle_commands_refused_lem m ms c p))
]
