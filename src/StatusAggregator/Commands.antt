-- ===== src/StatusAggregator/Commands.antt =====
-- Commands from the external server: a queue of the newest `max_external_commands`, which the
-- device's statuses consume.
use module_gateway.Common.{
  ℕ, zero, suc, ◌+◌, ◌-◌, ◌≤◌, true, false, List, [], ◌∷◌, ◌++◌, none, some, length, drop, take,
  replicate, take_nil, drop-drop, drop-append_le, ◌≡◌, ◌≢◌, ◌↔◌, refl, sym, ap, ◌∙◌, arith,
  length-append, length-drop,
}
use mathlib.Core.List.{append-nil, append_assoc}
use module_gateway.Common.Dict.{contains}
use module_gateway.Common.Dict.Laws.{contains_iff_find}
use module_gateway.Structures.Buffer.{Buffer}
use module_gateway.Structures.ReturnCode.{is_not_ok}
use module_gateway.Structures.Outcome.{thrown, out_of_range}
use module_gateway.Structures.Device.{DeviceIdentification, device_eq}
use module_gateway.Structures.Module.{ModuleLibraryHandler}
use module_gateway.Structures.Constants.{max_external_commands}
use module_gateway.Structures.DeviceState.{DeviceState, consume_command, add_external_command}
use module_gateway.StatusAggregator.{
  StatusAggregator, get_command, get_command_for_forwarding, is_device_valid,
}

-- Commands that arrive one after the other.
unfoldable pub add_commands : List Buffer → DeviceState → DeviceState
add_commands [] s = s
add_commands (c ∷ cs) s = add_commands cs (add_external_command c s).0

-- The newest entries of a list, at most `k`.
abbrev pub newest {ℓ} : {A : Type ℓ} → ℕ → List A → List A
newest k xs = drop (length xs - k) xs

newest_all {ℓ} : {A : Type ℓ} (k : ℕ) (xs : List A) → length xs ≤ k → newest k xs ≡ xs
newest_all k xs h = let none_over : length xs - k ≡ 0 = omega arith in rw none_over

-- Of a list that grows at its end, only the newest entries so far matter.
newest-append {ℓ} :
    {A : Type ℓ} (k : ℕ) (xs ys : List A) → newest k (newest k xs ++ ys) ≡ newest k (xs ++ ys)
newest-append k xs ys =
    let n : ℕ = length xs - k in
    let joined = drop-append_le n xs ys (omega arith) in
    let m : ℕ = length (drop n xs ++ ys) - k in
    ap (drop m) (sym joined)
    ∙ drop-drop n m (xs ++ ys)
    ∙ ap (λ t. drop t (xs ++ ys))
        (omega (arith, length-append xs ys, length-append (drop n xs) ys, length-drop n xs))

newest_le {ℓ} : {A : Type ℓ} (k : ℕ) (xs : List A) → length (newest k xs) ≤ k
newest_le k xs = omega (arith, length-drop (length xs - k) xs)

-- One push keeps the newest three.
add_external_command-newest :
    (c : Buffer) (s : DeviceState)
    → length s.external_commands ≤ max_external_commands
    → (add_external_command c s).0.external_commands
      ≡ newest max_external_commands (s.external_commands ++ c ∷ [])
unfolding add_external_command
add_external_command-newest c s h = push s.external_commands h refl
  where
    push :
        (q : List Buffer)
        → length q ≤ max_external_commands
        → s.external_commands ≡ q
        → (add_external_command c s).0.external_commands
          ≡ newest max_external_commands (q ++ c ∷ [])
    push [] l e = ground arith
    push (a ∷ []) l e = ground arith
    push (a ∷ b ∷ []) l e = ground arith
    push (a ∷ b ∷ d ∷ []) l e = ground arith
    push (a ∷ b ∷ d ∷ g ∷ q) l e = absurd (omega arith)

-- Pushing commands onto a device's queue that holds at most `max_external_commands` leaves the
-- newest `max_external_commands` of the old and the new commands, in the order of arrival.
pub add_commands-newest :
    (cs : List Buffer) (s : DeviceState)
    → length s.external_commands ≤ max_external_commands
    → (add_commands cs s).external_commands
      ≡ newest max_external_commands (s.external_commands ++ cs)
unfolding add_commands
add_commands-newest [] s h = sym (
    ap (newest max_external_commands) (append-nil s.external_commands)
    ∙ newest_all max_external_commands s.external_commands h)
add_commands-newest (c ∷ cs) s h =
    let s' : DeviceState = (add_external_command c s).0 in
    let pushed = add_external_command-newest c s h in
    let bounded : length s'.external_commands ≤ max_external_commands =
      rw pushed (newest_le max_external_commands (s.external_commands ++ c ∷ [])) in
    add_commands-newest cs s' bounded
    ∙ ap (λ q. newest max_external_commands (q ++ cs)) pushed
    ∙ newest-append max_external_commands (s.external_commands ++ c ∷ []) cs
    ∙ ap (newest max_external_commands) (append_assoc s.external_commands (c ∷ []) cs)

-- `k` calls of `consumeCommand`, with what they returned.
unfoldable pub consume_commands : ℕ → DeviceState → List Buffer × DeviceState
consume_commands zero s = ([], s)
consume_commands (suc k) s =
    let (s', c) = consume_command s in
    let (cs, s'') = consume_commands k s' in (elim c [ none ↦ cs | some b ↦ b ∷ cs ], s'')

-- A device with immediate forwarding is answered each waiting command once, oldest first, and
-- nothing more.
pub consume_commands_once :
    (k : ℕ) (q : List Buffer) (s : DeviceState)
    → s.external_commands ≡ q
    → s.forward_command_immediately ≡ true
    → (consume_commands k s).0 ≡ take k q
unfolding consume_commands consume_command
consume_commands_once zero q s e f = refl
consume_commands_once (suc k) [] s e f =
    ground (arith, consume_commands_once k [] s e f, take_nil {A = Buffer} k)
consume_commands_once (suc k) (c ∷ q) s e f = ground (
  arith,
  consume_commands_once k q (record s { default_command = c; external_commands = q }) refl f,
)

abbrev pub last_or {ℓ} : {A : Type ℓ} → A → List A → A
last_or a [] = a
last_or a (x ∷ xs) = last_or x xs

-- Any other device is answered the waiting commands, oldest first, and after them the last one
-- again and again: its default command, if none was waiting.
pub consume_commands_repeat :
    (k : ℕ) (q : List Buffer) (s : DeviceState)
    → s.external_commands ≡ q
    → s.forward_command_immediately ≡ false
    → (consume_commands (length q + k) s).0 ≡ q ++ replicate k (last_or s.default_command q)
unfolding consume_commands consume_command
consume_commands_repeat zero [] s e f = ground arith
consume_commands_repeat (suc k) [] s e f =
    let counted : 0 + suc k ≡ suc (0 + k) = omega arith in
    rw counted (ground (arith, consume_commands_repeat k [] s e f))
consume_commands_repeat k (c ∷ q) s e f =
    let s' : DeviceState = record s { default_command = c; external_commands = q } in
    let counted : suc (length q) + k ≡ suc (length q + k) = omega arith in
    rw counted (ground (arith, consume_commands_repeat k q s' refl f))

module _ (m : ModuleLibraryHandler) where
  -- `get_command` throws exactly for a device that is not registered and whose type the module
  -- does not refuse; `get_command_for_forwarding` never throws.
  pub get_command_throws :
      (a : StatusAggregator) (status : Buffer) (d : DeviceIdentification) (b : Buffer)
      → ((get_command m a status d b ≡ thrown out_of_range) ↔ (
          (is_not_ok (m.is_device_type_supported d.device_type) ≡ false)
          × (contains device_eq d a.devices ≡ false)))
        × (get_command_for_forwarding m a d b ≢ thrown out_of_range)
  unfolding get_command get_command_for_forwarding is_device_valid
  get_command_throws a status d b = (
    (
      (λ h. ground (arith, contains_iff_find device_eq d a.devices)),
      (λ h. ground (arith, contains_iff_find device_eq d a.devices)),
    ),
    (λ h. ground (arith, contains_iff_find device_eq d a.devices)),
  )
