-- ===== src/Common/Dict/Fresh.antt =====
-- A new key goes to the end of the map.
use mathlib.Core.Path.{◌≡◌, refl}
use mathlib.Core.Bool.{true, false}
use mathlib.Core.List.{[], ◌∷◌, ◌++◌}
use native.Mathlib.Omega.{arith}
use module_gateway.Common.Dict.{KeyEq, Dict, contains, modify, try_emplace, assign, Distinct}

module _ {ℓ κ} {K : Type ℓ} {V : Type κ} (e : KeyEq K) where
  open e use {same, same_refl, same_sym, same_trans}

  pub assign_fresh :
      (k : K) (v : V) (d : Dict K V) → contains e k d ≡ false → assign e k v d ≡ d ++ (k, v) ∷ []
  unfolding assign modify try_emplace contains
  assign_fresh k v [] h = ground (arith, same_refl k)
  assign_fresh k v ((i, w) ∷ d) h = ground (arith, assign_fresh k v d)

  contains_middle : (k : K) (v : V) (d xs : Dict K V) → contains e k (d ++ (k, v) ∷ xs) ≡ true
  unfolding contains
  contains_middle k v [] xs = ground (arith, same_refl k)
  contains_middle k v ((i, w) ∷ d) xs = ground (arith, contains_middle k v d xs)

  -- The key of an entry is none of the keys before it.
  pub Distinct-before :
      (i : K) (k : K) (v : V) (d xs : Dict K V)
      → same i k ≡ true
      → contains e i (d ++ (k, v) ∷ xs) ≡ true
  unfolding contains
  Distinct-before i k v [] xs h = ground (arith, same_sym i k, h)
  Distinct-before i k v ((l, w) ∷ d) xs h = ground (arith, Distinct-before i k v d xs h)

  pub Distinct-append :
      (k : K) (v : V) (d xs : Dict K V) → Distinct e (d ++ (k, v) ∷ xs) → contains e k d ≡ false
  unfolding contains
  Distinct-append k v [] xs h = refl
  Distinct-append k v ((i, w) ∷ d) xs h =
      ground (arith, h.0, Distinct-before i k v d xs, Distinct-append k v d xs h.1)
