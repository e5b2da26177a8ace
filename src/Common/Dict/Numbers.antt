-- ===== src/Common/Dict/Numbers.antt =====
-- Numbers as the keys of a map.
use mathlib.Core.Path.{◌≡◌}
use mathlib.Core.Bool.{true}
use Prim.Native.Nat.{ℕ}
use native.Mathlib.Omega.{arith}
use module_gateway.Common.Tests.{◌==◌}
use module_gateway.Common.Dict.{KeyEq}

pub number_refl : (a : ℕ) → (a == a) ≡ true
number_refl a = ground arith

pub number_sym : (a b : ℕ) → (a == b) ≡ (b == a)
number_sym a b = ground arith

pub number_trans : (a b c : ℕ) → (a == b) ≡ true → (a == c) ≡ (b == c)
number_trans a b c h = ground arith

abbrev pub number_eq : KeyEq ℕ
number_eq = record {
  same = ◌==◌;
  same_refl = number_refl;
  same_sym = number_sym;
  same_trans = number_trans;
}
