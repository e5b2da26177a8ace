-- ===== src/ModuleHandler/Answers.antt =====
-- source/bringauto/modules/ModuleHandler.cpp, handleStatus: what a device's status is answered with,
-- and which statuses go to the external server for it.
use module_gateway.Common.{
  ℕ, Bool, ◌∙◌, true, false, List, [], ◌∷◌, ◌++◌, length, map, if◌then◌else◌, ◌≡◌, ◌⊎◌, refl, arith,
  inl, inr,
}
use module_gateway.Structures.Buffer.{Buffer, empty_buffer}
use module_gateway.Structures.ReturnCode.{ReturnCode, count, command_invalid, is_ok, is_not_ok}
use module_gateway.Structures.Outcome.{returned}
use module_gateway.Structures.Device.{DeviceIdentification}
use module_gateway.Structures.Module.{ModuleLibraryHandler}
use module_gateway.Structures.Messages.{DeviceStatus}
use module_gateway.StatusAggregator.{
  StatusAggregator, messages_of, is_device_valid, add_status_to_aggregator, get_command,
}
use module_gateway.StatusAggregator.Messages.{add_status_count}
use module_gateway.StatusAggregator.Calls.{Call, run}
use module_gateway.ExternalClient.SentMessages.{any_same}
use module_gateway.ModuleHandler.Sparing.{Spares, IsStaying, add_status_posted_lem}
use module_gateway.ModuleHandler.{
  Others, no_others, handle_status_among, Exchange, status_buffer, status_message, command_message,
  answer_status, handle_status, push_internal,
}
use module_gateway.ModuleHandler.Draining.{
  Keeps, nothing-Keeps, spared-Keeps, agreed_messages_lem, agreed_valid_lem, send_statuses-drains,
}
use module_gateway.ModuleHandler.Asking.{Answered, get_command_result, add_status-valid}

module _ (m : ModuleLibraryHandler) where
  -- What an answered status leaves: the generated command, or an empty one where there is none for
  -- the device, is queued once; every message that was aggregated for the device goes to the
  -- external client's queue in order, and none is left. A command that the library cannot generate
  -- leaves both queues alone.
  abbrev pub IsAnswered :
      DeviceIdentification → StatusAggregator → Exchange → Exchange → ReturnCode → Buffer → Type 0
  IsAnswered d a x y rc command =
      ((y.to_internal
          ≡ x.to_internal ++ command_message d (if is_ok rc then command else empty_buffer) ∷ [])
        × (y.to_external ≡ x.to_external ++ map (status_message false d) (messages_of d a.devices))
        × (messages_of d y.aggregator.devices ≡ []))
      ⊎ ((rc ≡ command_invalid) × (y.to_internal ≡ x.to_internal) × (y.to_external ≡ x.to_external))

  answer_status-IsAnswered :
      (o : ℕ → List Call) (posted : Bool) (d : DeviceIdentification)
      → ((k : ℕ) → Keeps m d posted (o k))
      → (a a' : StatusAggregator) (x : Exchange) (rc : ReturnCode) (command : Buffer)
      → Answered m rc
      → any_same d a'.posted ≡ posted
      → is_ok (is_device_valid m a' d) ≡ true
      → messages_of d a'.devices ≡ messages_of d a.devices
      → IsAnswered d a x
          (answer_status m o (length (messages_of d a.devices)) d x (a', rc, command))
          rc
          command
  unfolding answer_status
  answer_status-IsAnswered o posted d keeps a a' x rc command (inl p) e v q =
      let sent =
        send_statuses-drains m o posted d keeps (messages_of d a.devices)
          (push_internal (command_message d command) (record x { aggregator = a' })) e v q in
      rw (p, answer_status) (inl (sent.1, sent.0, sent.2))
  answer_status-IsAnswered o posted d keeps a a' x rc command (inr (inl p)) e v q =
      let sent =
        send_statuses-drains m o posted d keeps (messages_of d a.devices)
          (push_internal (command_message d empty_buffer) (record x { aggregator = a' })) e v q in
      rw (p, answer_status) (inl (sent.1, sent.0, sent.2))
  answer_status-IsAnswered o posted d keeps a a' x rc command (inr (inr p)) e v q =
      rw (p, answer_status) (inr (refl, refl, refl))

  -- How `handle_status_among` ends for an accepted status.
  abbrev AnswersStatus : Others → ℕ → Exchange → DeviceStatus → Type 0
  AnswersStatus o now x status =
      let d = status.device in
      let b = status_buffer status.status_data in
      let a = (add_status_to_aggregator m now x.aggregator b d).0 in
      (y : Exchange) × (a' : StatusAggregator) × (rc : ReturnCode) × (command : Buffer)
      × (handle_status_among m o now x status ≡ returned y)
      × (get_command m (run m a o.before_command) b d empty_buffer ≡ returned (a', rc, command))
      × IsAnswered d a x y rc command

  kept_answers_lem :
      (o : Others) (now : ℕ) (x : Exchange) (status : DeviceStatus) (n : ℕ)
      → let d = status.device in
        let b = status_buffer status.status_data in
        let added = add_status_to_aggregator m now x.aggregator b d in
        let posted = any_same d x.aggregator.posted in
        is_ok (m.is_device_type_supported d.device_type) ≡ true
        → is_not_ok (m.status_data_valid b d.device_type) ≡ false
        → added.1 ≡ count n
        → Keeps m d posted o.before_command
        → ((k : ℕ) → Keeps m d posted (o.before_take k))
        → AnswersStatus o now x status
  unfolding handle_status_among
  kept_answers_lem o now x status n k valid r keeps_command keeps_take =
      let d = status.device in
      let b = status_buffer status.status_data in
      let a = (add_status_to_aggregator m now x.aggregator b d).0 in
      let c = run m a o.before_command in
      let posted = any_same d x.aggregator.posted in
      let p : any_same d a.posted ≡ posted =
        rw (add_status_posted_lem m now x.aggregator b d) refl in
      let (agreed, p') = keeps_command a p in
      let there : is_ok (is_device_valid m c d) ≡ true =
        rw (agreed_valid_lem m d a c agreed) (add_status-valid m now x.aggregator b d n k r) in
      let (a', rc, command, got, same, still, answered, kept) =
        get_command_result m c b d (ground arith) (unfold is_device_valid in ground arith) in
      let counted = add_status_count m now x.aggregator b d n k r in
      (
        answer_status m o.before_take (length (messages_of d a.devices)) d x (a', rc, command),
        a',
        rc,
        command,
        rw (valid, r, got, counted, handle_status_among) refl,
        got,
        answer_status-IsAnswered o.before_take posted d keeps_take a a' x rc command answered
            (rw kept p') (rw still there) (same ∙ agreed_messages_lem m d a c agreed),
      )

  -- A status with valid data, of a device with a supported type, that the aggregator accepts, and
  -- between the locked calls of its handler any calls that other threads make of the aggregator,
  -- as long as none is about the device and no erasure of it was posted before: handling the status
  -- throws nothing, the library's own calls throwing nothing. Either one command is queued for the
  -- device, every message that waits for the device once the status is added goes to the external
  -- client's queue in order, and none is left; or the library could not generate a command, and
  -- the handler adds to neither queue. The command is the one that `get_command` gives for the
  -- status after the other threads' calls, or an empty one where that has none.
  pub handle_status_among-answers :
      (o : Others) (now : ℕ) (x : Exchange) (status : DeviceStatus) (n : ℕ)
      → let d = status.device in
        let b = status_buffer status.status_data in
        let added = add_status_to_aggregator m now x.aggregator b d in
        is_ok (m.is_device_type_supported d.device_type) ≡ true
        → is_not_ok (m.status_data_valid b d.device_type) ≡ false
        → added.1 ≡ count n
        → IsStaying d x.aggregator
        → Spares d o.before_command
        → ((k : ℕ) → Spares d (o.before_take k))
        → (y : Exchange) × (a' : StatusAggregator) × (rc : ReturnCode) × (command : Buffer)
          × (handle_status_among m o now x status ≡ returned y)
          × (get_command m (run m added.0 o.before_command) b d empty_buffer
              ≡ returned (a', rc, command))
          × IsAnswered d added.0 x y rc command
  handle_status_among-answers o now x status n k valid r stays before between =
      let d = status.device in
      kept_answers_lem o now x status n k valid r
        (rw stays (spared-Keeps m d o.before_command before))
        (λ i. rw stays (spared-Keeps m d (o.before_take i) (between i)))

  -- The same where no other thread comes between.
  pub handle_status-answers :
      (now : ℕ) (x : Exchange) (status : DeviceStatus) (n : ℕ)
      → let d = status.device in
        let b = status_buffer status.status_data in
        let added = add_status_to_aggregator m now x.aggregator b d in
        is_ok (m.is_device_type_supported d.device_type) ≡ true
        → is_not_ok (m.status_data_valid b d.device_type) ≡ false
        → added.1 ≡ count n
        → (y : Exchange) × (a' : StatusAggregator) × (rc : ReturnCode) × (command : Buffer)
          × (handle_status m now x status ≡ returned y)
          × (get_command m added.0 b d empty_buffer ≡ returned (a', rc, command))
          × IsAnswered d added.0 x y rc command
  unfolding handle_status run
  handle_status-answers now x status n k valid r =
      let posted = any_same status.device x.aggregator.posted in
      kept_answers_lem no_others now x status n k valid r (nothing-Keeps m status.device posted)
        (λ i. nothing-Keeps m status.device posted)
