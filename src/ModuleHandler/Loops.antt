-- ===== src/ModuleHandler/Loops.antt =====
-- The loops of ModuleHandler.cpp over the modules and the queues, and `destroy`. A round of a loop has
-- what is pushed to its queue before it looks; the end of the rounds is a stopped ioContext.
use module_gateway.Common.{ℕ, false, List, [], ◌∷◌, ◌++◌, Option, none, some, All, ◌≡◌, refl, arith}
use module_gateway.Common.Dict.{Dict, Entries}
use module_gateway.Structures.Outcome.{Outcome, returned, thrown}
use module_gateway.Structures.Messages.{InternalClientMessage, ModuleHandlerMessage}
use module_gateway.StatusAggregator.{get_unique_devices}
use module_gateway.ModuleHandler.{Exchange}
use module_gateway.ModuleHandler.Timeouted.{
  HasFuel, check_timeouted_messages, check_timeouted_messages-total,
}
use module_gateway.ModuleHandler.Dispatch.{Module, ModuleHandler, handle_message, forward_command}

-- The modules after a check, and what it pushed.
pub record Checked : Type 0 where
  pub modules : Dict ℕ Module
  pub to_internal : List ModuleHandlerMessage
  pub to_external : List InternalClientMessage

-- `checkTimeoutedMessages`: each module in turn. A module's devices can always be listed.
unfoldable pub check_modules :
    ℕ → Dict ℕ Module → List ModuleHandlerMessage → List InternalClientMessage → Option Checked
check_modules fuel [] to_internal to_external =
    some (record { modules = []; to_internal = to_internal; to_external = to_external })
check_modules fuel ((key, m) ∷ modules) to_internal to_external =
    elim (check_timeouted_messages m.library fuel (record {
      aggregator = m.aggregator;
      to_internal = to_internal;
      to_external = to_external;
    })) [
      | none ↦ none
      | some x ↦ elim (check_modules fuel modules x.to_internal x.to_external) [
        | none ↦ none
        | some c ↦
            some (record c { modules = (key, record m { aggregator = x.aggregator }) ∷ c.modules })
      ]
    ]

unfoldable pub check_all : ℕ → ModuleHandler → Option ModuleHandler
check_all fuel h = elim (check_modules fuel h.modules h.to_internal h.to_external) [
  | none ↦ none
  | some c ↦
      some
        (record { modules = c.modules; to_internal = c.to_internal; to_external = c.to_external })
]

-- A module handler with the queues that it reads.
pub record Running : Type 0 where
  pub handler : ModuleHandler
  pub from_internal : List InternalClientMessage
  pub command_forwarding : List InternalClientMessage

-- A round of `handleMessages` at a time: `none` if the fuel of the check runs out.
unfoldable pub handle_messages_round :
    ℕ → ℕ → List InternalClientMessage → Running → Option (Outcome Running)
handle_messages_round fuel now arrived r = elim (check_all fuel r.handler) [
  | none ↦ none
  | some checked ↦ elim (r.from_internal ++ arrived) [
    | [] ↦ some (returned (record r { handler = checked }))
    | m ∷ ms ↦ elim (handle_message now checked m) [
      | thrown x ↦ some (thrown x)
      | returned h ↦ some (returned (record r { handler = h; from_internal = ms }))
    ]
  ]
]

-- A round of `handleCommandForwards`.
unfoldable pub handle_command_forwards_round :
    List InternalClientMessage → Running → Outcome Running
handle_command_forwards_round arrived r = elim (r.command_forwarding ++ arrived) [
  | [] ↦ returned r
  | m ∷ ms ↦ elim (forward_command r.handler m.device_id) [
    | thrown x ↦ thrown x
    | returned h ↦ returned (record r { handler = h; command_forwarding = ms })
  ]
]

-- while(not queue->empty()) queue->pop()
unfoldable pub pop_queue : List InternalClientMessage → List InternalClientMessage
pop_queue [] = []
pop_queue (m ∷ ms) = pop_queue ms

unfoldable pub destroy : Running → Running
destroy r = record r {
  from_internal = pop_queue r.from_internal;
  command_forwarding = pop_queue r.command_forwarding;
}

-- The fuel exceeds the messages that wait for each registered device of the module.
abbrev pub EnoughFuel : ℕ → ℕ → Module → Type 0
EnoughFuel fuel key m =
    All (HasFuel m.library fuel m.aggregator) (get_unique_devices m.library m.aggregator).0

check_modules-total :
    (fuel : ℕ) (modules : Dict ℕ Module) (to_internal : List ModuleHandlerMessage)
    (to_external : List InternalClientMessage)
    → Entries (EnoughFuel fuel) modules
    → (c : Checked) × (check_modules fuel modules to_internal to_external ≡ some c)
      × Entries (λ key m. m.aggregator.timeouted_message_ready ≡ false) c.modules
unfolding check_modules
check_modules-total fuel [] to_internal to_external h =
    (record { modules = []; to_internal = to_internal; to_external = to_external }, refl, tt)
check_modules-total fuel ((key, m) ∷ modules) to_internal to_external h =
    let start : Exchange = record {
      aggregator = m.aggregator;
      to_internal = to_internal;
      to_external = to_external;
    } in
    let (x, checked, unset) = check_timeouted_messages-total m.library fuel start h.0 in
    let (c, others, clear) = check_modules-total fuel modules x.to_internal x.to_external h.1 in
    (
      record c { modules = (key, record m { aggregator = x.aggregator }) ∷ c.modules },
      ground (arith, checked, others),
      (unset, clear),
    )

-- With more fuel than messages wait for any registered device of any module, the check of the timed
-- out messages of all modules ends, and then no module says that it has some.
pub check_all-total :
    (fuel : ℕ) (h : ModuleHandler)
    → Entries (EnoughFuel fuel) h.modules
    → (x : ModuleHandler) × (check_all fuel h ≡ some x)
      × Entries (λ key m. m.aggregator.timeouted_message_ready ≡ false) x.modules
unfolding check_all
check_all-total fuel h enough =
    let (c, checked, clear) =
      check_modules-total fuel h.modules h.to_internal h.to_external enough in
    (
      record { modules = c.modules; to_internal = c.to_internal; to_external = c.to_external },
      ground (arith, checked),
      clear,
    )
