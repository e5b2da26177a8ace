-- ===== src/Structures/Device.antt =====
-- source/bringauto/structures/DeviceIdentification.cpp. The module number, an `int` that is only
-- compared, stands as its bit pattern.
use text.Mathlib.Text.{◌==◌ as str_eq}
use text.Mathlib.TextEquality.{eq_iff}
use module_gateway.Common.{ℕ, String, Bool, true, ◌≡◌, ◌&&◌, ◌==◌, arith}
use module_gateway.Common.Dict.{KeyEq}

pub record DeviceIdentification : Type 0 where
  pub module_number : ℕ
  pub device_type : ℕ
  pub device_role : String
  pub device_name : String
  pub priority : ℕ

-- operator==: neither the name nor the priority is compared.
unfoldable pub same_device : DeviceIdentification → DeviceIdentification → Bool
same_device a b =
    a.module_number == b.module_number
    && (a.device_type == b.device_type && str_eq a.device_role b.device_role)

pub same_refl : (a : DeviceIdentification) → same_device a a ≡ true
unfolding same_device
same_refl a = ground (arith, eq_iff a.device_role a.device_role)

pub same_sym : (a b : DeviceIdentification) → same_device a b ≡ same_device b a
unfolding same_device
same_sym a b =
    ground (arith, eq_iff a.device_role b.device_role, eq_iff b.device_role a.device_role)

pub same_trans :
    (a b c : DeviceIdentification) → same_device a b ≡ true → same_device a c ≡ same_device b c
unfolding same_device
same_trans a b c h = ground (
  arith,
  eq_iff a.device_role b.device_role,
  eq_iff a.device_role c.device_role,
  eq_iff b.device_role c.device_role,
)

-- What std::unordered_map asks of its key: `operator==` is an equivalence.
abbrev pub device_eq : KeyEq DeviceIdentification
device_eq = record {
  same = same_device;
  same_refl = same_refl;
  same_sym = same_sym;
  same_trans = same_trans;
}
