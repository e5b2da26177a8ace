-- ===== src/ExternalClient/Connection/Sending.antt =====
-- What `sendStatus` sends, and what becomes of a status that cannot be sent.
use module_gateway.Common.{
  ℕ, true, false, [], ◌∷◌, ◌++◌, some, ◌+◌, ◌%◌, ◌^◌, if◌then◌else◌, ◌≡◌, refl, ap, ◌∙◌, arith,
}
use mathlib.Core.Option
use module_gateway.Common.Dict.{find}
use module_gateway.Common.Dict.Numbers.{number_eq}
use module_gateway.Structures.Buffer.{Buffer, empty_buffer}
use module_gateway.Structures.Device.{DeviceIdentification}
use module_gateway.Structures.Messages.{DeviceStatus}
use module_gateway.ExternalClient.ErrorAggregator.{get_last_status}
use module_gateway.ExternalClient.Messages.{status, StatusState, create_external_client_status}
use module_gateway.ExternalClient.SentMessages.{
  NotAckedStatus, add_not_acked_status, SentMessagesHandler, add_device_as_connected,
  delete_connected_device,
}
use module_gateway.ExternalClient.Connection.{
  ErrorAggregator, ExternalConnection, not_initialized,
  fill_error_aggregator_with_not_acked_statuses, deinitialize_connection, send_marked, mark_device,
  next_status_counter, next, send, send_status, is_unregistered,
}
use module_gateway.ExternalClient.Connection.Statuses.{
  statuses_of, with_statuses, deinitialize_connection-keeps,
}

-- The state of a device in the status that is sent: connecting, for a device that has no status in
-- the error aggregator.
unfoldable pub sent_state :
    StatusState → DeviceStatus → ErrorAggregator → ExternalConnection → StatusState
sent_state state s a c =
    if is_unregistered (get_last_status a.library a.devices empty_buffer s.device).1
    then StatusState.connecting
    else (mark_device state s.device c.sent_messages).0

abbrev pub waiting : ℕ → DeviceStatus → NotAckedStatus
waiting counter s = record { message_counter = counter; status = s; running = true }

mark_device_statuses_lem :
    (state : StatusState) (d : DeviceIdentification) (h : SentMessagesHandler)
    → (mark_device state d h).1.not_acked_statuses ≡ h.not_acked_statuses
unfolding mark_device add_device_as_connected delete_connected_device
mark_device_statuses_lem StatusState.connecting d h = refl
mark_device_statuses_lem StatusState.running d h = ground arith
mark_device_statuses_lem StatusState.disconnect d h = refl
mark_device_statuses_lem StatusState.error d h = refl

-- A status that the channel takes is sent with the next counter, and waits for its response under
-- that counter, after the others. Nothing else is sent.
pub send_status-sent :
    (s : DeviceStatus) (state : StatusState) (error : Buffer) (a : ErrorAggregator)
    (c : ExternalConnection)
    → find number_eq s.device.module_number c.error_aggregators ≡ some a
    → next c.channel.accepts ≡ true
    → let counter = (c.client_message_counter + 1) % 2 ^ 32 in
      let after = send_status s state error c in
      (after.channel.outbox
        ≡ c.channel.outbox
          ++ status
              (create_external_client_status c.session_id (sent_state state s a c) counter s error)
            ∷ [])
      × (after.sent_messages.not_acked_statuses
          ≡ c.sent_messages.not_acked_statuses ++ waiting counter s ∷ [])
      × (after.client_message_counter ≡ counter)
      × (after.state ≡ c.state)
unfolding send_status send_marked send sent_state add_not_acked_status mark_device
send_status-sent s state error a c h taken = (
  ground arith,
  ground (
    arith,
    mark_device_statuses_lem state s.device c.sent_messages,
    mark_device_statuses_lem StatusState.connecting s.device c.sent_messages,
  ),
  ground arith,
  ground arith,
)

deinitialize_connection_outbox_lem :
    (c : ExternalConnection) → (deinitialize_connection false c).channel.outbox ≡ c.channel.outbox
unfolding deinitialize_connection fill_error_aggregator_with_not_acked_statuses
deinitialize_connection_outbox_lem c = refl

-- What `sendStatus` has done when the channel answers.
unfoldable tried_status :
    DeviceStatus → StatusState → Buffer → ExternalConnection → ExternalConnection
tried_status s state error c =
    let (marked, h) = mark_device state s.device c.sent_messages in
    let counter = next_status_counter c in
    (send (status (create_external_client_status c.session_id marked counter s error)) (record c {
      client_message_counter = counter;
      sent_messages = add_not_acked_status h counter s;
    })).0

tried_status_lem :
    (s : DeviceStatus) (state : StatusState) (error : Buffer) (c : ExternalConnection)
    → next c.channel.accepts ≡ false
    → let tried = tried_status s state error c in
      (send_marked s state error c ≡ deinitialize_connection false tried)
      × (tried.error_aggregators ≡ c.error_aggregators)
      × (tried.channel.outbox ≡ c.channel.outbox)
      × (tried.sent_messages.not_acked_statuses
          ≡ c.sent_messages.not_acked_statuses ++ waiting (next_status_counter c) s ∷ [])
unfolding tried_status send_marked send add_not_acked_status
tried_status_lem s state error c refused = (
  rw refused refl,
  refl,
  rw refused refl,
  rw (mark_device_statuses_lem state s.device c.sent_messages) refl,
)

-- A status that the channel does not take ends the connection and is not lost: the error aggregator
-- of its module takes the statuses that waited, and this one after them.
pub send_status-failed :
    (s : DeviceStatus) (state : StatusState) (error : Buffer) (a : ErrorAggregator)
    (c : ExternalConnection)
    → find number_eq s.device.module_number c.error_aggregators ≡ some a
    → is_unregistered (get_last_status a.library a.devices empty_buffer s.device).1 ≡ false
    → next c.channel.accepts ≡ false
    → let after = send_status s state error c in
      let unsent = c.sent_messages.not_acked_statuses ++ waiting (next_status_counter c) s ∷ [] in
      let n = s.device.module_number in
      (find number_eq n after.error_aggregators ≡ some (with_statuses (statuses_of n unsent) a))
      × (after.sent_messages.not_acked_statuses ≡ [])
      × (after.state ≡ not_initialized)
      × (after.channel.outbox ≡ c.channel.outbox)
unfolding send_status
send_status-failed s state error a c h known refused =
    let n = s.device.module_number in
    let all = c.sent_messages.not_acked_statuses ++ waiting (next_status_counter c) s ∷ [] in
    let tried = tried_status s state error c in
    let (ended, aggregators, outbox, unsent) = tried_status_lem s state error c refused in
    let (kept, none_waits, devices, state') = deinitialize_connection-keeps n tried in
    let same : send_status s state error c ≡ deinitialize_connection false tried = ground arith in
    (
      ap (λ r. find number_eq n r.error_aggregators) same
          ∙ kept
          ∙ ap
              (λ ss.
                Option.map (with_statuses (statuses_of n ss))
                  (find number_eq n tried.error_aggregators))
              unsent
          ∙ ap (λ e. Option.map (with_statuses (statuses_of n all)) (find number_eq n e))
              aggregators
          ∙ ap (Option.map (with_statuses (statuses_of n all))) h,
      ap (λ r. r.sent_messages.not_acked_statuses) same ∙ none_waits,
      ap (λ r. r.state) same ∙ state',
      ap (λ r. r.channel.outbox) same ∙ deinitialize_connection_outbox_lem tried ∙ outbox,
    )
