-- ===== src/ExternalClient/SentMessages/Connected.antt =====
-- The devices that are connected to the external server, as a multiset.
use module_gateway.Common.{
  ℕ, suc, ◌-◌, ltb, List, [], ◌∷◌, ◌++◌, if◌then◌else◌, ◌≡◌, refl, ap, ◌∙◌, arith,
}
use module_gateway.Structures.Device.{DeviceIdentification, same_device, device_eq}
use module_gateway.ExternalClient.SentMessages.{
  SentMessagesHandler, add_device_as_connected, delete_connected_device, erase_device, any_same,
  is_device_connected,
}
open device_eq use {same_sym, same_trans}

-- How often the device has been added and not deleted.
abbrev pub times_in : DeviceIdentification → List DeviceIdentification → ℕ
times_in d [] = 0
times_in d (e ∷ es) = if same_device e d then suc (times_in d es) else times_in d es

times_in-add :
    (d e : DeviceIdentification) (es : List DeviceIdentification)
    → times_in d (es ++ e ∷ []) ≡ (if same_device e d then suc (times_in d es) else times_in d es)
times_in-add d e [] = refl
times_in-add d e (x ∷ es) = ground (arith, times_in-add d e es)

times_in-erase :
    (d e : DeviceIdentification) (es : List DeviceIdentification)
    → times_in d (erase_device e es)
      ≡ (if same_device e d then times_in d es - 1 else times_in d es)
unfolding erase_device
times_in-erase d e [] = ground arith
times_in-erase d e (x ∷ es) =
    ground
      (arith, times_in-erase d e es, same_trans x e d, same_trans e d x, same_sym x e, same_sym d x)

any_same-times_in :
    (d : DeviceIdentification) (es : List DeviceIdentification)
    → any_same d es ≡ ltb 0 (times_in d es)
unfolding any_same
any_same-times_in d [] = refl
any_same-times_in d (x ∷ es) = ground (arith, any_same-times_in d es, same_sym x d)

-- A device is connected as long as it has been added more often than deleted: adding one raises the
-- number for the devices that are the same as it, deleting lowers it by one, and other devices keep
-- theirs.
pub is_device_connected_lem :
    (h : SentMessagesHandler) (d e : DeviceIdentification)
    → let n = times_in d h.connected_devices in
      (is_device_connected h d ≡ ltb 0 n)
      × (is_device_connected (add_device_as_connected h e) d
          ≡ ltb 0 (if same_device e d then suc n else n))
      × (is_device_connected (delete_connected_device h e) d
          ≡ ltb 0 (if same_device e d then n - 1 else n))
unfolding is_device_connected add_device_as_connected delete_connected_device
is_device_connected_lem h d e =
    let es = h.connected_devices in
    (
      any_same-times_in d es,
      any_same-times_in d (es ++ e ∷ []) ∙ ap (ltb 0) (times_in-add d e es),
      any_same-times_in d (erase_device e es) ∙ ap (ltb 0) (times_in-erase d e es),
    )
