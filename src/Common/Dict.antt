-- ===== src/Common/Dict.antt =====
-- A map as an association list, keyed up to an equivalence: `std::unordered_map` with the key
-- type's `operator==`. A stored key is the one that was inserted first; iteration goes along the
-- list, whose order stands for the map's unspecified one.
pub mod Laws
pub mod Numbers
pub mod Fresh
use mathlib.Core.Path.{◌≡◌}
use mathlib.Core.Bool.{Bool, true, false}
use mathlib.Core.Option.{Option, none, some}
use mathlib.Core.List.{List, [], ◌∷◌}
use module_gateway.Common.Tests.{if◌then◌else◌}

-- A comparison that is an equivalence.
pub record KeyEq {ℓ} (K : Type ℓ) : Type ℓ where
  pub same : K → K → Bool
  pub same_refl : (a : K) → same a a ≡ true
  pub same_sym : (a b : K) → same a b ≡ same b a
  pub same_trans : (a b c : K) → same a b ≡ true → same a c ≡ same b c

abbrev pub Dict {ℓ κ} : Type ℓ → Type κ → Type (ℓ ⊔ κ)
Dict K V = List (K × V)

abbrev pub keys {ℓ κ} : {K : Type ℓ} {V : Type κ} → Dict K V → List K
keys [] = []
keys ((i, v) ∷ d) = i ∷ keys d

-- for (auto &[key, value] : map) value = f(value)
abbrev pub map_values {ℓ κ} : {K : Type ℓ} {V : Type κ} → (V → V) → Dict K V → Dict K V
map_values f [] = []
map_values f ((i, v) ∷ d) = (i, f v) ∷ map_values f d

-- What each entry satisfies, key and value.
abbrev pub Entries {ℓ κ μ} : {K : Type ℓ} {V : Type κ} → (K → V → Type μ) → Dict K V → Type μ
Entries P [] = Unit
Entries P ((i, v) ∷ d) = P i v × Entries P d

module _ {ℓ κ} {K : Type ℓ} {V : Type κ} (e : KeyEq K) where
  open e use {same, same_refl, same_sym, same_trans}

  unfoldable pub find : K → Dict K V → Option V
  find j [] = none
  find j ((i, v) ∷ d) = if same i j then some v else find j d

  unfoldable pub contains : K → Dict K V → Bool
  contains j [] = false
  contains j ((i, v) ∷ d) = if same i j then true else contains j d

  -- Changes the value under a key, if there is one.
  unfoldable pub modify : K → (V → V) → Dict K V → Dict K V
  modify k f [] = []
  modify k f ((i, v) ∷ d) = if same i k then (i, f v) ∷ d else (i, v) ∷ modify k f d

  -- try_emplace: an entry that is there stays.
  unfoldable pub try_emplace : K → V → Dict K V → Dict K V
  try_emplace k w [] = (k, w) ∷ []
  try_emplace k w ((i, v) ∷ d) = if same i k then (i, v) ∷ d else (i, v) ∷ try_emplace k w d

  unfoldable pub erase : K → Dict K V → Dict K V
  erase k [] = []
  erase k ((i, v) ∷ d) = if same i k then d else (i, v) ∷ erase k d

  -- map[key] = value
  unfoldable pub assign : K → V → Dict K V → Dict K V
  unfolding modify try_emplace
  assign k w d = modify k (λ _. w) (try_emplace k w d)

  -- No key stands in the list twice.
  abbrev pub Distinct : Dict K V → Type 0
  Distinct [] = Unit
  Distinct ((i, v) ∷ d) = (contains i d ≡ false) × Distinct d
