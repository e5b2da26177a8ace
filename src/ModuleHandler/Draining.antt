-- ===== src/ModuleHandler/Draining.antt =====
-- source/bringauto/modules/ModuleHandler.cpp: the loop of handleStatus that sends a device's messages,
-- while other threads call the aggregator.
use module_gateway.Common.{
  ℕ, Bool, ◌∙◌, true, false, List, [], ◌∷◌, ◌++◌, length, map, ◌≡◌, refl, sym, arith,
}
use mathlib.Core.List.{append_assoc, append-nil}
use module_gateway.Common.Dict.Laws.{contains_iff_find}
use module_gateway.Structures.Buffer.{Buffer, empty_buffer}
use module_gateway.Structures.ReturnCode.{is_ok}
use module_gateway.Structures.Device.{DeviceIdentification, device_eq}
use module_gateway.Structures.Module.{ModuleLibraryHandler}
use module_gateway.StatusAggregator.{
  StatusAggregator, messages_of, is_device_valid, get_aggregated_status,
}
use module_gateway.StatusAggregator.Messages.{take_oldest}
use module_gateway.StatusAggregator.Calls.{Call, run}
use module_gateway.StatusAggregator.Isolation.{Agrees}
use module_gateway.ExternalClient.SentMessages.{any_same}
use module_gateway.ModuleHandler.Sparing.{Spares, run-Agrees}
use module_gateway.ModuleHandler.{
  disturb, Exchange, status_message, send_aggregated_status, send_statuses,
}

module _ (m : ModuleLibraryHandler) where
  -- The calls leave the device as it is, where `posted` says whether its erasure is posted.
  abbrev pub Keeps : DeviceIdentification → Bool → List Call → Type 0
  Keeps d posted cs =
      (a : StatusAggregator)
      → any_same d a.posted ≡ posted
      → Agrees d a (run m a cs) × (any_same d (run m a cs).posted ≡ posted)

  pub nothing-Keeps : (d : DeviceIdentification) (posted : Bool) → Keeps d posted []
  unfolding run
  nothing-Keeps d posted a p = ((refl, refl), p)

  pub spared-Keeps : (d : DeviceIdentification) (cs : List Call) → Spares d cs → Keeps d false cs
  spared-Keeps d cs spared a p = run-Agrees m cs a d spared p

  pub agreed_messages_lem :
      (d : DeviceIdentification) (a b : StatusAggregator)
      → Agrees d a b
      → messages_of d b.devices ≡ messages_of d a.devices
  unfolding messages_of
  agreed_messages_lem d a b (e, _) = ground (arith, e)

  pub agreed_valid_lem :
      (d : DeviceIdentification) (a b : StatusAggregator)
      → Agrees d a b
      → is_device_valid m b d ≡ is_device_valid m a d
  unfolding is_device_valid
  agreed_valid_lem d a b (e, _) =
      ground
        (arith, e, contains_iff_find device_eq d a.devices, contains_iff_find device_eq d b.devices)

  send_aggregated_status_posted_lem :
      (disconnected : Bool) (d : DeviceIdentification) (x : Exchange)
      → (send_aggregated_status m disconnected d x).aggregator.posted ≡ x.aggregator.posted
  unfolding send_aggregated_status get_aggregated_status
  send_aggregated_status_posted_lem disconnected d x = ground arith

  pub send_statuses-drains :
      (o : ℕ → List Call) (posted : Bool) (d : DeviceIdentification)
      → ((k : ℕ) → Keeps d posted (o k))
      → (q : List Buffer) (x : Exchange) → any_same d x.aggregator.posted ≡ posted
      → is_ok (is_device_valid m x.aggregator d) ≡ true
      → messages_of d x.aggregator.devices ≡ q
      → let y = send_statuses m o (length q) d x in
        (y.to_external ≡ x.to_external ++ map (status_message false d) q)
        × (y.to_internal ≡ x.to_internal)
        × (messages_of d y.aggregator.devices ≡ [])
  unfolding send_statuses send_aggregated_status
  send_statuses-drains o posted d keeps [] x p v h = (sym (append-nil x.to_external), refl, h)
  send_statuses-drains o posted d keeps (b ∷ q) x p v h =
      let y = disturb m (o (length q)) x in
      let (same, p') = keeps (length q) x.aggregator p in
      let v' : is_ok (is_device_valid m y.aggregator d) ≡ true =
        rw (agreed_valid_lem d x.aggregator y.aggregator same) v in
      let h' = agreed_messages_lem d x.aggregator y.aggregator same ∙ h in
      let (rc, hb, hq, v'') = take_oldest m y.aggregator empty_buffer b q d v' h' in
      let sent = send_aggregated_status m false d y in
      let p'' : any_same d sent.aggregator.posted ≡ posted =
        rw (send_aggregated_status_posted_lem false d y) p' in
      let later = send_statuses-drains o posted d keeps q sent p'' v'' hq in
      let assoc =
        append_assoc x.to_external (status_message false d b ∷ [])
          (map (status_message false d) q) in
      (ground arith, ground arith, later.2)
