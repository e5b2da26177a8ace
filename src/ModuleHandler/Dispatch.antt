-- ===== src/ModuleHandler/Dispatch.antt =====
-- `handleMessages` and `handleCommandForwards`, one message each: the message goes to the module
-- that its device names.
use module_gateway.Common.{
  ℕ, Bool, false, List, [], ◌∷◌, ◌++◌, Option, none, some, ◌==◌, if◌then◌else◌, ◌≡◌, inl, inr, refl,
  arith, Option-cases, Bool-cases,
}
use mathlib.Core.List.{append-nil}
use module_gateway.Common.Dict.{Dict, find, modify}
use module_gateway.Common.Dict.Numbers.{number_eq}
use module_gateway.Common.Dict.Laws.{find-modify}
use module_gateway.Structures.Outcome.{Outcome, returned, thrown, ◌>>=◌}
use module_gateway.Structures.Device.{DeviceIdentification}
use module_gateway.Structures.Module.{ModuleLibraryHandler}
use module_gateway.Structures.Messages.{
  InternalClient, InternalClientMessage, ModuleHandlerMessage, device_status, device_connect,
  nothing, module_not_supported, connect_response, server_message,
}
use module_gateway.StatusAggregator.{StatusAggregator}
use module_gateway.ModuleHandler.{
  Exchange, handle_status, handle_disconnect, handle_connect, handle_command_forward,
}

-- moduleLibraryHandlers and statusAggregators of ModuleLibrary, where both have the module.
pub record Module : Type 0 where
  pub library : ModuleLibraryHandler
  pub aggregator : StatusAggregator

pub record ModuleHandler : Type 0 where
  pub modules : Dict ℕ Module
  pub to_internal : List ModuleHandlerMessage
  pub to_external : List InternalClientMessage

abbrev pub exchange_of : ModuleHandler → Module → Exchange
exchange_of h m = record {
  aggregator = m.aggregator;
  to_internal = h.to_internal;
  to_external = h.to_external;
}

-- What a handler did to a module's aggregator and to the queues.
unfoldable pub store : ModuleHandler → ℕ → Exchange → ModuleHandler
store h number x = record {
  modules = modify number_eq number (λ m. record m { aggregator = x.aggregator }) h.modules;
  to_internal = x.to_internal;
  to_external = x.to_external;
}

-- A handler for a device: `missing` where its module has no aggregator.
unfoldable pub with_module :
    ModuleHandler
    → DeviceIdentification
    → Outcome ModuleHandler
    → (ModuleLibraryHandler → Exchange → Outcome Exchange)
    → Outcome ModuleHandler
with_module h d missing f = elim (find number_eq d.module_number h.modules) [
  | none ↦ missing
  | some m ↦ f m.library (exchange_of h m) >>= λ x. returned (store h d.module_number x)
]

unfoldable pub dispatch : ℕ → ModuleHandler → InternalClient → Outcome ModuleHandler
dispatch now h (device_connect d) =
    with_module h d
      (returned (record h {
        to_internal =
            h.to_internal ++ server_message false (connect_response d module_not_supported) ∷ [];
      }))
      (λ m x. returned (handle_connect m x d))
dispatch now h (device_status s) =
    with_module h s.device (returned h) (λ m x. handle_status m now x s)
dispatch now h nothing = returned h

-- A message from the internal server, which `handleMessages` then pops.
unfoldable pub handle_message : ℕ → ModuleHandler → InternalClientMessage → Outcome ModuleHandler
unfolding dispatch
handle_message now h m =
    if m.disconnected
    then with_module h m.device_id (returned h)
        (λ l x. returned (handle_disconnect l x m.device_id))
    else dispatch now h m.message

unfoldable pub forward_command : ModuleHandler → DeviceIdentification → Outcome ModuleHandler
forward_command h d = with_module h d (returned h) (λ m x. handle_command_forward m x d)

module _ (h : ModuleHandler) (d : DeviceIdentification) (n : ℕ) where
  with_module-other :
      (h' : ModuleHandler) (missing : Outcome ModuleHandler)
      (f : ModuleLibraryHandler → Exchange → Outcome Exchange)
      → (d.module_number == n) ≡ false
      → ((k : ModuleHandler) → missing ≡ returned k → k.modules ≡ h.modules)
      → with_module h d missing f ≡ returned h'
      → find number_eq n h'.modules ≡ find number_eq n h.modules
  unfolding with_module store
  with_module-other h' missing f other kept e =
      elim (Option-cases (find number_eq d.module_number h.modules)) [
        | inl none_there ↦ let same = kept h' (ground arith) in ground arith
        | inr (m, there) ↦ go (f m.library (exchange_of h m)) m there refl
      ]
    where
      go :
          (o : Outcome Exchange) (m : Module)
          → find number_eq d.module_number h.modules ≡ some m
          → f m.library (exchange_of h m) ≡ o
          → find number_eq n h'.modules ≡ find number_eq n h.modules
      go (thrown x) m there q = absurd (ground arith)
      go (returned x) m there q =
          let stored : store h d.module_number x ≡ h' = ground arith in
          let found =
            find-modify number_eq n d.module_number
              (λ (k : Module). record k { aggregator = x.aggregator }) h.modules in
          rw (← stored) (ground arith)

-- The module that a message of an internal client names.
abbrev pub named_module : InternalClient → Option ℕ
named_module (device_connect d) = some d.module_number
named_module (device_status s) = some s.device.module_number
named_module nothing = none

abbrev pub module_of : InternalClientMessage → Option ℕ
module_of m = if m.disconnected then some m.device_id.module_number else named_module m.message

abbrev pub names : Option ℕ → ℕ → Bool
names none n = false
names (some k) n = k == n

dispatch-other :
    (now : ℕ) (h h' : ModuleHandler) (m : InternalClient) (n : ℕ)
    → dispatch now h m ≡ returned h'
    → names (named_module m) n ≡ false
    → find number_eq n h'.modules ≡ find number_eq n h.modules
unfolding dispatch
dispatch-other now h h' (device_connect d) n e other =
    with_module-other h d n h' _ _ other (λ k q. ground arith) e
dispatch-other now h h' (device_status s) n e other =
    with_module-other h s.device n h' _ _ other (λ k q. ground arith) e
dispatch-other now h h' nothing n e other = ground arith

-- A message that is handled without an exception leaves every module as it was but the one that its
-- device names.
pub handle_message-other :
    (now : ℕ) (h h' : ModuleHandler) (m : InternalClientMessage) (n : ℕ)
    → handle_message now h m ≡ returned h'
    → names (module_of m) n ≡ false
    → find number_eq n h'.modules ≡ find number_eq n h.modules
unfolding handle_message
handle_message-other now h h' m n e other = elim (Bool-cases m.disconnected) [
  | inl gone ↦
      with_module-other h m.device_id n h' (returned h)
        (λ l x. returned (handle_disconnect l x m.device_id)) (ground arith) (λ k q. ground arith)
        (ground arith)
  | inr there ↦ dispatch-other now h h' m.message n (ground arith) (ground arith)
]

-- What a message is answered with where its module is not supported.
abbrev pub unsupported_answer : InternalClientMessage → List ModuleHandlerMessage
unsupported_answer m = if m.disconnected then [] else elim m.message [
  | device_connect d ↦ server_message false (connect_response d module_not_supported) ∷ []
  | _ ↦ []
]

-- A message whose module number has no module throws nothing and changes no module and nothing for
-- the external client; a connect message is answered with MODULE_NOT_SUPPORTED, any other is ignored.
pub handle_message-unsupported :
    (now : ℕ) (h : ModuleHandler) (m : InternalClientMessage) (n : ℕ)
    → module_of m ≡ some n
    → find number_eq n h.modules ≡ none
    → handle_message now h m
      ≡ returned (record h { to_internal = h.to_internal ++ unsupported_answer m })
unfolding handle_message dispatch with_module
handle_message-unsupported now h m n e f = ground (arith, append-nil h.to_internal)
