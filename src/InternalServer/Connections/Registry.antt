-- ===== src/InternalServer/Connections/Registry.antt =====
-- The list of connected devices as a table: lookups, removal, and devices that stay apart.
use module_gateway.Common.{
  ℕ, Bool, true, false, not, List, [], ◌∷◌, ◌++◌, Option, none, some, All, All-map, All-append,
  All_of, ◌≡◌, ◌⊎◌, inl, inr, refl, arith, Option-cases, Bool-cases,
}
use module_gateway.Structures.Device.{DeviceIdentification, same_device, device_eq}
use module_gateway.InternalServer.Connections.{
  Connection, Server, is_same, find_in, erase_in, find_connection, update,
}
open device_eq use {same_refl, same_sym, same_trans}

-- The two connections have devices that are not the same.
abbrev pub are_apart : Connection → Connection → Bool
are_apart c c' = elim c.device_id [ none ↦ true | some d ↦ not (is_same d c') ]

-- No device is connected twice.
abbrev pub Distinct : (ℕ → Connection) → List ℕ → Type 0
Distinct cs [] = Unit
Distinct cs (i ∷ is) = All (λ j. are_apart (cs i) (cs j) ≡ true) is × Distinct cs is

-- The connections carry the same devices in both.
abbrev pub SameDevices : (ℕ → Connection) → (ℕ → Connection) → ℕ → Type 0
SameDevices cs cs' j = (cs' j).device_id ≡ (cs j).device_id

pub is_same_congr :
    (d e : DeviceIdentification) (c : Connection)
    → same_device d e ≡ true
    → is_same d c ≡ is_same e c
unfolding is_same
is_same_congr d e c h = go c.device_id
  where
    go :
        (o : Option DeviceIdentification)
        → (elim o [ none ↦ false | some x ↦ same_device d x ])
          ≡ (elim o [ none ↦ false | some x ↦ same_device e x ])
    go none = refl
    go (some x) = same_trans d e x h

module _ (cs cs' : ℕ → Connection) where
  pub find_in-device :
      (d : DeviceIdentification) (is : List ℕ)
      → All (SameDevices cs cs') is
      → (find_in cs' d is ≡ find_in cs d is) × (erase_in cs' d is ≡ erase_in cs d is)
  unfolding find_in erase_in is_same
  find_in-device d [] h = (refl, refl)
  find_in-device d (i ∷ is) h = ground (arith, find_in-device d is h.1, h.0)

  apart-device :
      (i : ℕ) (is : List ℕ)
      → SameDevices cs cs' i
      → All (SameDevices cs cs') is
      → All (λ j. are_apart (cs i) (cs j) ≡ true) is
      → All (λ j. are_apart (cs' i) (cs' j) ≡ true) is
  unfolding is_same
  apart-device i [] e h a = tt
  apart-device i (j ∷ is) e h a = ground (arith, apart-device i is e h.1 a.1, a.0, h.0)

  pub Distinct-device :
      (is : List ℕ) → All (SameDevices cs cs') is → Distinct cs is → Distinct cs' is
  Distinct-device [] h a = tt
  Distinct-device (i ∷ is) h a = (apart-device i is h.0 h.1 a.0, Distinct-device is h.1 a.1)

module _ (cs : ℕ → Connection) where
  pub erase_in-All {ℓ} :
      (P : ℕ → Type ℓ) (d : DeviceIdentification) (is : List ℕ)
      → All P is
      → All P (erase_in cs d is)
  unfolding erase_in
  erase_in-All P d [] h = tt
  erase_in-All P d (i ∷ is) h = ground (arith, erase_in-All P d is h.1)

  pub erase_in-Distinct :
      (d : DeviceIdentification) (is : List ℕ) → Distinct cs is → Distinct cs (erase_in cs d is)
  unfolding erase_in
  erase_in-Distinct d [] h = tt
  erase_in-Distinct d (i ∷ is) h = ground (
    arith,
    erase_in-Distinct d is h.1,
    erase_in-All (λ j. are_apart (cs i) (cs j) ≡ true) d is h.0,
  )

  pub find_congr :
      (d e : DeviceIdentification) (is : List ℕ)
      → same_device d e ≡ true
      → (find_in cs d is ≡ find_in cs e is) × (erase_in cs d is ≡ erase_in cs e is)
  unfolding find_in erase_in
  find_congr d e [] h = (refl, refl)
  find_congr d e (i ∷ is) h = ground (arith, is_same_congr d e (cs i) h, find_congr d e is h)

  -- What was not found is not there.
  pub find_in-none :
      (d : DeviceIdentification) (is : List ℕ)
      → find_in cs d is ≡ none
      → All (λ j. is_same d (cs j) ≡ false) is
  unfolding find_in
  find_in-none d [] h = tt
  find_in-none d (i ∷ is) h = ground (arith, find_in-none d is)

  -- What was found has the device.
  pub find_in-some :
      (d : DeviceIdentification) (is : List ℕ) (j : ℕ)
      → find_in cs d is ≡ some j
      → (e : DeviceIdentification) × ((cs j).device_id ≡ some e) × (same_device d e ≡ true)
  unfolding find_in
  find_in-some d [] j h = cc
  find_in-some d (i ∷ is) j h = elim (Bool-cases (is_same d (cs i))) [
    | inl p ↦
        let here : i ≡ j = ground arith in
        unfold is_same in
        (elim (Option-cases (cs i).device_id) [
          | inl e ↦ absurd (ground arith)
          | inr (e, q) ↦ (e, ground arith, ground arith)
        ])
    | inr p ↦ find_in-some d is j (ground arith)
  ]

  apart_from :
      (d : DeviceIdentification) (i : ℕ) (is : List ℕ)
      → is_same d (cs i) ≡ true
      → All (λ j. are_apart (cs i) (cs j) ≡ true) is
      → All (λ j. is_same d (cs j) ≡ false) is
  apart_from d i [] h a = tt
  apart_from d i (j ∷ is) h a = (first, apart_from d i is h a.1)
    where
      first : is_same d (cs j) ≡ false
      first = elim (Option-cases (cs i).device_id) [
        | inl e ↦ absurd (unfold is_same in ground arith)
        | inr (e, q) ↦
            let same : same_device d e ≡ true = unfold is_same in ground arith in
            let apart = a.0 in ground (arith, is_same_congr d e (cs j) same)
      ]

  -- Where devices are distinct, only what was found has the device, and after the removal nothing.
  pub find_in_only :
      (d : DeviceIdentification) (is : List ℕ) (j : ℕ)
      → Distinct cs is
      → find_in cs d is ≡ some j
      → All (λ k. (k ≡ j) ⊎ (is_same d (cs k) ≡ false)) is
  unfolding find_in
  find_in_only d [] j a h = tt
  find_in_only d (i ∷ is) j a h = elim (Bool-cases (is_same d (cs i))) [
    | inl p ↦ (inl (ground arith), All-map _ _ (λ k q. inr q) is (apart_from d i is p a.0))
    | inr p ↦ (inr p, find_in_only d is j a.1 (ground arith))
  ]

  pub erase_in_gone :
      (d : DeviceIdentification) (is : List ℕ)
      → Distinct cs is
      → All (λ k. is_same d (cs k) ≡ false) (erase_in cs d is)
  unfolding erase_in
  erase_in_gone d [] a = tt
  erase_in_gone d (i ∷ is) a = elim (Bool-cases (is_same d (cs i))) [
    | inl p ↦ rw p (apart_from d i is p a.0)
    | inr p ↦ rw p (p, erase_in_gone d is a.1)
  ]

  -- A connection that is added at the end with a device that no other has.
  apart_end :
      (d : DeviceIdentification) (i j : ℕ)
      → (cs j).device_id ≡ some d
      → is_same d (cs i) ≡ false
      → are_apart (cs i) (cs j) ≡ true
  unfolding is_same
  apart_end d i j e h = elim (Option-cases (cs i).device_id) [
    | inl q ↦ ground arith
    | inr (x, q) ↦ ground (arith, same_sym d x)
  ]

  pub Distinct-append :
      (d : DeviceIdentification) (is : List ℕ) (j : ℕ)
      → (cs j).device_id ≡ some d
      → All (λ k. is_same d (cs k) ≡ false) is
      → Distinct cs is
      → Distinct cs (is ++ j ∷ [])
  Distinct-append d [] j e h a = (tt, tt)
  Distinct-append d (i ∷ is) j e h a = (
    All-append (λ k. are_apart (cs i) (cs k) ≡ true) is (j ∷ []) a.0 (apart_end d i j e h.0, tt),
    Distinct-append d is j e h.1 a.1,
  )

-- A change to a connection that keeps its device.
module _ (i : ℕ) (f : Connection → Connection) (s : Server)
    (keeps : (c : Connection) → (f c).device_id ≡ c.device_id) where
  update-SameDevices : All (SameDevices s.connection (update i f s).connection) s.connected
  unfolding update
  update-SameDevices = All_of _ (λ j. ground (arith, keeps (s.connection j))) s.connected

  -- Every device is found where it was.
  pub find_connection-update :
      (d : DeviceIdentification) → find_connection (update i f s) d ≡ find_connection s d
  unfolding find_connection update update-SameDevices
  find_connection-update d =
      (find_in-device s.connection (update i f s).connection d s.connected update-SameDevices).0

  -- No device is connected twice, if none was.
  pub update-Distinct :
      Distinct s.connection s.connected → Distinct (update i f s).connection s.connected
  update-Distinct =
      Distinct-device s.connection (update i f s).connection s.connected update-SameDevices
