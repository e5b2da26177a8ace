-- ===== src/Common/Dict/Laws.antt =====
-- The laws of the map: lookups after each operation, and keys that stay distinct.
use mathlib.Core.Path.{◌≡◌, refl, subst}
use mathlib.Core.Logic.{inl, inr}
use mathlib.Core.Bool.{true, false}
use mathlib.Core.Option
use mathlib.Core.Option.{none, some}
use mathlib.Core.List.{[], ◌∷◌}
use native.Mathlib.Omega.{arith}
use module_gateway.Common.Tests.{if◌then◌else◌, Bool-cases}
use module_gateway.Common.Dict.{
  KeyEq, Dict, find, contains, modify, try_emplace, erase, assign, Distinct, map_values, Entries,
}

module _ {ℓ κ} {K : Type ℓ} {V : Type κ} (e : KeyEq K) where
  open e use {same, same_refl, same_sym, same_trans}

  pub contains_iff_find :
      (j : K) (d : Dict K V) → contains e j d ≡ elim (find e j d) [ none ↦ false | some v ↦ true ]
  unfolding find contains
  contains_iff_find j [] = refl
  contains_iff_find j ((i, v) ∷ d) = ground (arith, contains_iff_find j d)

  pub find-contains : (j : K) (d : Dict K V) {v : V} → find e j d ≡ some v → contains e j d ≡ true
  find-contains j d h = ground (arith, contains_iff_find j d)

  pub find_of_contains :
      (j : K) (d : Dict K V) → contains e j d ≡ true → (v : V) × (find e j d ≡ some v)
  find_of_contains j d h = ground (arith, contains_iff_find j d)

  -- Equivalent keys find the same entry.
  pub find_congr : (i j : K) (d : Dict K V) → same i j ≡ true → find e i d ≡ find e j d
  unfolding find
  find_congr i j [] h = refl
  find_congr i j ((k, v) ∷ d) h =
      ground (arith, same_sym k i, same_sym k j, same_trans i j k h, find_congr i j d h)

  pub contains_congr : (i j : K) (d : Dict K V) → same i j ≡ true → contains e i d ≡ contains e j d
  contains_congr i j d h =
      ground (arith, contains_iff_find i d, contains_iff_find j d, find_congr i j d h)

  pub find-modify :
      (j k : K) (f : V → V) (d : Dict K V)
      → find e j (modify e k f d) ≡ (if same k j then Option.map f (find e j d) else find e j d)
  unfolding find modify
  find-modify j k f [] = ground arith
  find-modify j k f ((i, v) ∷ d) =
      ground
        (arith, find-modify j k f d, same_trans k j i, same_trans k i j, same_sym i k, same_sym i j)

  -- A change that leaves the value as it is.
  pub modify_same :
      (k : K) (f : V → V) (d : Dict K V) {v : V}
      → find e k d ≡ some v
      → f v ≡ v
      → modify e k f d ≡ d
  unfolding find modify
  modify_same k f [] h q = refl
  modify_same k f ((i, w) ∷ d) {v} h q = ground (arith, modify_same k f d {v = v})

  pub contains-modify :
      (j k : K) (f : V → V) (d : Dict K V) → contains e j (modify e k f d) ≡ contains e j d
  unfolding contains modify
  contains-modify j k f [] = refl
  contains-modify j k f ((i, v) ∷ d) = ground (arith, contains-modify j k f d)

  pub find-try_emplace :
      (j k : K) (w : V) (d : Dict K V)
      → find e j (try_emplace e k w d)
        ≡ (if same k j then elim (find e j d) [ none ↦ some w | some v ↦ some v ] else find e j d)
  unfolding find try_emplace
  find-try_emplace j k w [] = ground arith
  find-try_emplace j k w ((i, v) ∷ d) =
      ground (arith, find-try_emplace j k w d, same_trans i k j, same_sym i k, same_trans k i j)

  pub contains-try_emplace :
      (j k : K) (w : V) (d : Dict K V)
      → contains e j (try_emplace e k w d) ≡ (if same k j then true else contains e j d)
  contains-try_emplace j k w d = ground (
    arith,
    contains_iff_find j d,
    contains_iff_find j (try_emplace e k w d),
    find-try_emplace j k w d,
  )

  pub find-assign :
      (j k : K) (w : V) (d : Dict K V)
      → find e j (assign e k w d) ≡ (if same k j then some w else find e j d)
  unfolding assign
  find-assign j k w d =
      ground (arith, find-modify j k (λ _. w) (try_emplace e k w d), find-try_emplace j k w d)

  pub contains-assign :
      (j k : K) (w : V) (d : Dict K V)
      → contains e j (assign e k w d) ≡ (if same k j then true else contains e j d)
  contains-assign j k w d =
      ground
        (arith, contains_iff_find j d, contains_iff_find j (assign e k w d), find-assign j k w d)

  pub contains-erase_ne :
      (j k : K) (d : Dict K V) → same k j ≡ false → contains e j (erase e k d) ≡ contains e j d
  unfolding contains erase
  contains-erase_ne j k [] h = refl
  contains-erase_ne j k ((i, v) ∷ d) h =
      ground (arith, contains-erase_ne j k d h, same_trans i k j, same_sym i k, same_trans k i j)

  pub find-erase_ne :
      (j k : K) (d : Dict K V) → same k j ≡ false → find e j (erase e k d) ≡ find e j d
  unfolding find erase
  find-erase_ne j k [] h = refl
  find-erase_ne j k ((i, v) ∷ d) h =
      ground (arith, find-erase_ne j k d h, same_trans i k j, same_sym i k, same_trans k i j)

  pub contains-erase_self :
      (k : K) (d : Dict K V) → Distinct e d → contains e k (erase e k d) ≡ false
  unfolding contains erase
  contains-erase_self k [] h = refl
  contains-erase_self k ((i, v) ∷ d) h =
      ground (arith, contains-erase_self k d h.1, contains_congr i k d, h.0)

  pub contains-erase_le :
      (j k : K) (d : Dict K V) → contains e j d ≡ false → contains e j (erase e k d) ≡ false
  unfolding contains erase
  contains-erase_le j k [] h = refl
  contains-erase_le j k ((i, v) ∷ d) h = ground (arith, contains-erase_le j k d)

  pub modify-Distinct :
      (k : K) (f : V → V) (d : Dict K V) → Distinct e d → Distinct e (modify e k f d)
  unfolding modify
  modify-Distinct k f [] h = tt
  modify-Distinct k f ((i, v) ∷ d) h =
      ground (arith, modify-Distinct k f d h.1, contains-modify i k f d, h.0)

  pub try_emplace-Distinct :
      (k : K) (w : V) (d : Dict K V) → Distinct e d → Distinct e (try_emplace e k w d)
  unfolding try_emplace contains
  try_emplace-Distinct k w [] h = (refl, tt)
  try_emplace-Distinct k w ((i, v) ∷ d) h =
      ground
        (arith, try_emplace-Distinct k w d h.1, contains-try_emplace i k w d, same_sym i k, h.0)

  pub erase-Distinct : (k : K) (d : Dict K V) → Distinct e d → Distinct e (erase e k d)
  unfolding erase
  erase-Distinct k [] h = tt
  erase-Distinct k ((i, v) ∷ d) h =
      ground (arith, erase-Distinct k d h.1, contains-erase_le i k d h.0)

  pub find-map_values :
      (j : K) (f : V → V) (d : Dict K V) → find e j (map_values f d) ≡ Option.map f (find e j d)
  unfolding find
  find-map_values j f [] = refl
  find-map_values j f ((i, v) ∷ d) = ground (arith, find-map_values j f d)

  pub contains-map_values :
      (j : K) (f : V → V) (d : Dict K V) → contains e j (map_values f d) ≡ contains e j d
  unfolding contains
  contains-map_values j f [] = refl
  contains-map_values j f ((i, v) ∷ d) = ground (arith, contains-map_values j f d)

  pub map_values-Distinct : (f : V → V) (d : Dict K V) → Distinct e d → Distinct e (map_values f d)
  map_values-Distinct f [] h = tt
  map_values-Distinct f ((i, v) ∷ d) h =
      ground (arith, map_values-Distinct f d h.1, contains-map_values i f d, h.0)

  pub modify-Entries {μ} :
      (P : K → V → Type μ) (k : K) (f : V → V)
      → ((i : K) (v : V) → P i v → P i (f v))
      → (d : Dict K V) → Entries P d
      → Entries P (modify e k f d)
  unfolding modify
  modify-Entries P k f keep [] h = tt
  modify-Entries P k f keep ((i, v) ∷ d) h =
      ground (arith, modify-Entries P k f keep d h.1, keep i v h.0)

  pub try_emplace-Entries {μ} :
      (P : K → V → Type μ) (k : K) (w : V)
      → P k w
      → (d : Dict K V) → Entries P d
      → Entries P (try_emplace e k w d)
  unfolding try_emplace
  try_emplace-Entries P k w p [] h = (p, tt)
  try_emplace-Entries P k w p ((i, v) ∷ d) h = ground (arith, try_emplace-Entries P k w p d h.1)

  pub erase-Entries {μ} :
      (P : K → V → Type μ) (k : K) (d : Dict K V) → Entries P d → Entries P (erase e k d)
  unfolding erase
  erase-Entries P k [] h = tt
  erase-Entries P k ((i, v) ∷ d) h = ground (arith, erase-Entries P k d h.1)

  pub find-Entries {μ} :
      (P : V → Type μ) (j : K) (d : Dict K V) {v : V}
      → Entries (λ _ w. P w) d
      → find e j d ≡ some v
      → P v
  unfolding find
  find-Entries P j [] h q = cc
  find-Entries P j ((i, w) ∷ d) {v} h q = elim (Bool-cases (same i j)) [
    | inl p ↦ let same_value : w ≡ v = ground arith in subst P same_value h.0
    | inr p ↦ find-Entries P j d h.1 (rw p at q)
  ]
