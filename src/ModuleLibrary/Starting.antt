-- ===== src/ModuleLibrary/Starting.antt =====
-- Which modules are started.
use module_gateway.Common.{
  ℕ, String, Bool, true, List, [], ◌∷◌, some, ◌==◌, ◌&&◌, ◌||◌, subst, ap, if◌then◌else◌, ◌≡◌,
  arith, Bool-cases, inl, inr,
}
use module_gateway.Common.Dict.{Entries, Dict, contains, try_emplace}
use module_gateway.Common.Dict.Laws.{contains-try_emplace, try_emplace-Entries}
use module_gateway.Common.Dict.Numbers.{number_eq}
use module_gateway.Structures.Outcome.{returned}
use module_gateway.Structures.Module.{ModuleLibraryHandler}
use module_gateway.StatusAggregator.{init}
use module_gateway.ModuleHandler.Dispatch.{Module}
use module_gateway.Settings.{ExternalConnectionSettings, Settings}
use module_gateway.Settings.Correct.{is_listed}
use module_gateway.Settings.Parser.{Json, Text, Configuration}
use module_gateway.Settings.Correct.{Arguments, parse_settings, parse_settings-usable}
use module_gateway.ModuleLibrary.{load_libraries, init_status_aggregators}

-- A handler stands under its own number.
abbrev pub IsNumbered : Dict ℕ ModuleLibraryHandler → Type 0
IsNumbered = Entries λ key handler. handler.module_number ≡ key

load_libraries-loaded :
    (open_library : String → ModuleLibraryHandler) (paths : Dict ℕ String)
    (loaded handlers : Dict ℕ ModuleLibraryHandler) (n : ℕ)
    → IsNumbered loaded
    → load_libraries open_library paths loaded ≡ returned handlers
    → (contains number_eq n handlers ≡ (contains number_eq n paths || contains number_eq n loaded))
      × IsNumbered handlers
unfolding load_libraries contains
load_libraries-loaded open_library [] loaded handlers n numbered h =
    let same : loaded ≡ handlers = ground (arith, h) in
    (ground (arith, same), subst IsNumbered same numbered)
load_libraries-loaded open_library ((key, path) ∷ paths) loaded handlers n numbered h =
    elim (Bool-cases ((open_library path).module_number == key)) [
      | inl p ↦
          let number : (open_library path).module_number ≡ key = ground (arith, p) in
          let put =
            try_emplace-Entries number_eq _ key (open_library path) number loaded numbered in
          let later =
            load_libraries-loaded open_library paths
              (try_emplace number_eq key (open_library path) loaded) handlers n put
              (ground (arith, p, h)) in
          (
            ground
                (arith, later.0, contains-try_emplace number_eq n key (open_library path) loaded),
            later.1,
          )
      | inr p ↦ absurd (ground (arith, p, h))
    ]

contains-init_status_aggregators :
    (connections : List ExternalConnectionSettings) (handlers : Dict ℕ ModuleLibraryHandler)
    (started : Dict ℕ Module) (n : ℕ)
    → IsNumbered handlers
    → contains number_eq n (init_status_aggregators connections handlers started)
      ≡ (contains number_eq n started || (contains number_eq n handlers && is_listed n connections))
unfolding init_status_aggregators contains
contains-init_status_aggregators connections [] started n h = ground arith
contains-init_status_aggregators connections ((key, handler) ∷ handlers) started n h =
    let m : Module = record { library = handler; aggregator = init } in
    let next : Dict ℕ Module =
      if contains number_eq handler.module_number started
      then started
      else if is_listed handler.module_number connections
      then try_emplace number_eq handler.module_number m started
      else started in
    let later = contains-init_status_aggregators connections handlers next n h.1 in
    let put = contains-try_emplace number_eq n handler.module_number m started in
    elim (Bool-cases (key == n)) [
      | inl p ↦
          let same : handler.module_number ≡ n = ground (arith, h.0, p) in
          let listed = ap (λ i. is_listed i connections) same in
          let there = ap (λ i. contains number_eq i started) same in
          ground (arith, later, put, p, same, listed, there)
      | inr p ↦ ground (arith, later, put, p, h.0)
    ]

-- Once the libraries are loaded without an exception, the modules that are started are those that
-- have a path and that a connection lists.
pub init_status_aggregators-started :
    (open_library : String → ModuleLibraryHandler) (paths : Dict ℕ String)
    (handlers : Dict ℕ ModuleLibraryHandler) (connections : List ExternalConnectionSettings) (n : ℕ)
    → load_libraries open_library paths [] ≡ returned handlers
    → contains number_eq n (init_status_aggregators connections handlers [])
      ≡ (contains number_eq n paths && is_listed n connections)
unfolding contains
init_status_aggregators-started open_library paths handlers connections n h =
    let loaded = load_libraries-loaded open_library paths [] handlers n tt h in
    ground (arith, loaded.0, contains-init_status_aggregators connections handlers [] n loaded.1)

-- After settings are parsed and their libraries loaded without an exception, every module that a
-- connection lists is started.
pub parse_settings-started :
    (exists is_name : String → Bool) (j : Json) (t : Text) (a : Arguments) (c : Configuration j)
    (s : Settings) (open_library : String → ModuleLibraryHandler)
    (handlers : Dict ℕ ModuleLibraryHandler) (n : ℕ)
    → parse_settings exists is_name j t a c ≡ returned (some s)
    → load_libraries open_library s.module_paths [] ≡ returned handlers
    → is_listed n s.external_connections ≡ true
    → contains number_eq n (init_status_aggregators s.external_connections handlers []) ≡ true
parse_settings-started exists is_name j t a c s open_library handlers n parsed loaded listed =
    let usable = parse_settings-usable exists is_name j t a c s n parsed listed in
    ground (
      arith,
      listed,
      usable.0,
      init_status_aggregators-started open_library s.module_paths handlers s.external_connections n
          loaded,
    )
