-- ===== src/ModuleHandler/Disconnecting.antt =====
-- What a device's disconnect leaves.
use module_gateway.Common.{true, false, List, [], ◌∷◌, ◌++◌, some, length, ◌≡◌, refl, arith}
use module_gateway.Common.Dict.{find}
use module_gateway.Common.Dict.Laws.{find-modify, contains-modify}
use module_gateway.Structures.Buffer.{Buffer, empty_buffer}
use module_gateway.Structures.ReturnCode.{count, is_below_one, is_ok}
use module_gateway.Structures.Device.{DeviceIdentification, device_eq}
use module_gateway.Structures.DeviceState.{DeviceState}
use module_gateway.Structures.Module.{ModuleLibraryHandler}
use module_gateway.StatusAggregator.{
  StatusAggregator, messages_of, is_device_valid, force_aggregation_on_device, remove_device,
  get_aggregated_status, clear_device, push_status,
}
use module_gateway.StatusAggregator.Messages.{take_oldest}
use module_gateway.StatusAggregator.Removal.{messages_of-clear_messages}
use module_gateway.ModuleHandler.{
  Exchange, status_message, send_aggregated_status, handle_disconnect,
}

module _ (m : ModuleLibraryHandler) where
  forced :
      (a : StatusAggregator) (d : DeviceIdentification) (s : DeviceState)
      → is_ok (is_device_valid m a d) ≡ true
      → find device_eq d a.devices ≡ some s
      → let r = force_aggregation_on_device m a d in
        (messages_of d r.0.devices ≡ s.aggregated_messages ++ s.status ∷ [])
        × (is_ok (is_device_valid m r.0 d) ≡ true)
        × (r.1 ≡ count (length (s.aggregated_messages ++ s.status ∷ [])))
        × (r.0.posted ≡ a.posted)
  unfolding force_aggregation_on_device is_device_valid messages_of
  forced a d s v f = ground (
    arith,
    find-modify device_eq d d push_status a.devices,
    contains-modify device_eq d d push_status a.devices,
    device_eq.same_refl d,
  )

  removed :
      (a : StatusAggregator) (d : DeviceIdentification)
      → is_ok (is_device_valid m a d) ≡ true
      → (messages_of d (remove_device m a d).0.devices ≡ [])
        × ((remove_device m a d).0.posted ≡ a.posted ++ d ∷ [])
  unfolding remove_device clear_device is_device_valid
  removed a d v = ground (arith, messages_of-clear_messages d a.devices)

  -- A registered device disconnects while `q` waits for the external server. Its status is added to
  -- the end of `q`, but the one message that is sent as the disconnect is the oldest of all, so it
  -- is the device's status only where `q` is empty; the others are thrown away, and the handler that
  -- erases the device is posted.
  pub handle_disconnect-sends :
      (x : Exchange) (d : DeviceIdentification) (s : DeviceState) (oldest : Buffer)
      (q : List Buffer)
      → is_ok (is_device_valid m x.aggregator d) ≡ true
      → find device_eq d x.aggregator.devices ≡ some s
      → s.aggregated_messages ++ s.status ∷ [] ≡ oldest ∷ q
      → let y = handle_disconnect m x d in
        (y.to_external ≡ x.to_external ++ status_message true d oldest ∷ [])
        × (y.to_internal ≡ x.to_internal)
        × (messages_of d y.aggregator.devices ≡ [])
        × (y.aggregator.posted ≡ x.aggregator.posted ++ d ∷ [])
  unfolding handle_disconnect send_aggregated_status
  handle_disconnect-sends x d s oldest q v f e =
      let a = (force_aggregation_on_device m x.aggregator d).0 in
      let (waiting, v', rc, posted) = forced x.aggregator d s v f in
      let (ok', hb, hq, v'') = take_oldest m a empty_buffer oldest q d v' (rw waiting e) in
      let (empty, posted') = removed (get_aggregated_status m a empty_buffer d).0 d v'' in
      let many : is_below_one (force_aggregation_on_device m x.aggregator d).1 ≡ false =
        rw (rc, e) refl in
      let still : (get_aggregated_status m a empty_buffer d).0.posted ≡ a.posted =
        unfold get_aggregated_status in ground arith in
      (ground arith, ground arith, ground arith, ground arith)
