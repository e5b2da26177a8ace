-- ===== src/ModuleLibrary.antt =====
-- source/bringauto/structures/ModuleLibrary.cpp: the libraries of the modules, and their status
-- aggregators. `open_library` is what makes the handler of a library out of its path; it is no part
-- of the repository. The logging is left out.
pub mod Async
pub mod Implements
pub mod Local
pub mod Starting
use module_gateway.Common.{
  ℕ, String, Bool, true, false, not, List, [], ◌∷◌, Option, none, some, ◌==◌, ◌&&◌, if◌then◌else◌,
  ◌≡◌, refl, arith, Option-cases, Bool-cases, inl, inr, ◌∙◌,
}
use module_gateway.Common.Dict.{Dict, find, contains, try_emplace, keys}
use module_gateway.Common.Dict.Laws.{find-try_emplace, contains-try_emplace}
use module_gateway.Common.Dict.Numbers.{number_eq}
use module_gateway.Structures.Outcome.{Outcome, Outcome-cases, returned, thrown, runtime_error}
use module_gateway.Structures.Module.{ModuleLibraryHandler}
use module_gateway.StatusAggregator.{StatusAggregator, init}
use module_gateway.ModuleHandler.Dispatch.{Module}
use module_gateway.Settings.{ExternalConnectionSettings, Settings}
use module_gateway.Settings.Correct.{is_listed, has_number}

module _ (open_library : String → ModuleLibraryHandler) where
  -- moduleLibraryHandlers, and an exception for a library whose number is not the one it stands
  -- under in the settings.
  unfoldable pub load_libraries :
      Dict ℕ String → Dict ℕ ModuleLibraryHandler → Outcome (Dict ℕ ModuleLibraryHandler)
  load_libraries [] loaded = returned loaded
  load_libraries ((key, path) ∷ paths) loaded =
      let handler = open_library path in
      let rest = load_libraries paths (try_emplace number_eq key handler loaded) in
      if handler.module_number == key then rest else thrown runtime_error

-- The modules that are started: the ones that a connection of the settings lists.
unfoldable pub init_status_aggregators :
    List ExternalConnectionSettings → Dict ℕ ModuleLibraryHandler → Dict ℕ Module → Dict ℕ Module
init_status_aggregators connections [] started = started
init_status_aggregators connections ((key, handler) ∷ handlers) started =
    let number = handler.module_number in
    let m : Module = record { library = handler; aggregator = init } in
    init_status_aggregators connections handlers (
      if contains number_eq number started
      then started
      else if is_listed number connections
      then try_emplace number_eq number m started
      else started)
