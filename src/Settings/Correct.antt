-- ===== src/Settings/Correct.antt =====
-- The checks of SettingsParser.cpp, and `parseSettings`. Whether a path exists and whether a name
-- matches the regular expression for names are parameters.
use text.Mathlib.Text.{◌==◌ as str_eq}
use module_gateway.Common.{
  ◌||◌, ◌==◌, ℕ, ◌<◌, ◌^◌, String, Bool, true, false, ◌&&◌, not, List, [], ◌∷◌, Option, none, some,
  if◌then◌else◌, ltb, is_nil, ◌≡◌, refl, All, arith, Bool-cases, inl, inr, ◌⊎◌, ◌∙◌, ap, subst,
}
use module_gateway.Common.Dict.{Dict, contains}
use module_gateway.Common.Dict.Numbers.{number_eq}
use module_gateway.Structures.Outcome.{
  Outcome-cases, Outcome, returned, thrown, invalid_argument, ◌>>=◌,
}
use module_gateway.Settings.{
  ProtocolType, invalid, mqtt, quic, dummy, ExternalConnectionSettings, Settings,
  string_to_protocol_type,
}
use module_gateway.Settings.Parser.{
  Json, Text, Endpoint, Configuration, as_port, fill_settings, fill_external_connection_settings,
  fill_module_paths_settings,
}

-- The command line, as cxxopts has parsed it: how often each parameter stands there, the arguments
-- that match none, and the port.
pub record Arguments : Type 0 where
  pub argc : ℕ
  pub help_count : ℕ
  pub config_path_count : ℕ
  pub port_count : ℕ
  pub unmatched : List String
  pub port : ℕ

abbrev pub is_unique : List ℕ → Bool
is_unique [] = true
is_unique (n ∷ ns) = not (ltb 1 n) && is_unique ns

unfoldable pub are_cmd_arguments_correct : Arguments → Bool
are_cmd_arguments_correct a =
    let all_parameters = a.config_path_count ∷ a.port_count ∷ a.config_path_count ∷ [] in
    is_unique all_parameters && is_nil a.unmatched && not (ltb a.config_path_count 1)

unfoldable pub have_paths : Dict ℕ String → List ℕ → Bool
have_paths paths [] = true
have_paths paths (n ∷ ns) = contains number_eq n paths && have_paths paths ns

unfoldable pub connections_have_paths : Dict ℕ String → List ExternalConnectionSettings → Bool
connections_have_paths paths [] = true
connections_have_paths paths (e ∷ es) =
    have_paths paths e.modules && connections_have_paths paths es

abbrev pub has_number : ℕ → List ℕ → Bool
has_number n [] = false
has_number n (k ∷ ks) = k == n || has_number n ks

abbrev pub is_blank : String → Bool
is_blank s = str_eq s ""

module _ (exists : String → Bool) (is_name : String → Bool) where
  unfoldable pub are_settings_correct : Settings → Bool
  are_settings_correct s =
      not (s.file.use_file && not (exists s.file.path))
      && not (is_nil s.module_paths)
      && not (not (is_blank s.module_binary_path) && not (exists s.module_binary_path))
      && is_name s.company
      && is_name s.vehicle_name
      && connections_have_paths s.module_paths s.external_connections

  -- `parseSettings`, where the configuration file has the values `c`; without settings if it only
  -- prints the help.
  unfoldable pub parse_settings :
      (j : Json) → Text → Arguments → Configuration j → Outcome (Option Settings)
  parse_settings j t a c =
      let argument = if ltb 0 a.port_count then some a.port else none in
      if ltb 0 a.help_count || a.argc == 1
      then returned none
      else if are_cmd_arguments_correct a
      then (fill_settings j t argument c >>= λ s.
          (if are_settings_correct s then returned (some s) else thrown invalid_argument))
      else thrown invalid_argument

-- Whether a module is one of a connection.
abbrev pub is_listed : ℕ → List ExternalConnectionSettings → Bool
is_listed n [] = false
is_listed n (e ∷ es) = has_number n e.modules || is_listed n es

abbrev pub is_valid_type : ProtocolType → Bool
is_valid_type invalid = false
is_valid_type _ = true

type_cases : (p : ProtocolType) → (p ≡ invalid) ⊎ (p ≡ mqtt) ⊎ (p ≡ quic) ⊎ (p ≡ dummy)
type_cases invalid = inl refl
type_cases mqtt = inr (inl refl)
type_cases quic = inr (inr (inl refl))
type_cases dummy = inr (inr (inr refl))

all_types_valid :
    (j : Json) (t : Text) (es : List (Endpoint j))
    → All (λ e. is_valid_type e.protocol_type ≡ true) (fill_external_connection_settings j t es)
unfolding fill_external_connection_settings
all_types_valid j t [] = tt
all_types_valid j t (e ∷ es) =
    elim (type_cases (string_to_protocol_type t.to_upper e.protocol_type)) [
      | inl p ↦ ground (arith, p, all_types_valid j t es)
      | inr (inl p) ↦ ground (arith, p, all_types_valid j t es)
      | inr (inr (inl p)) ↦ ground (arith, p, all_types_valid j t es)
      | inr (inr (inr p)) ↦ ground (arith, p, all_types_valid j t es)
    ]

have_paths_lem :
    (paths : Dict ℕ String) (n : ℕ) (ns : List ℕ)
    → have_paths paths ns ≡ true
    → has_number n ns ≡ true
    → contains number_eq n paths ≡ true
unfolding have_paths
have_paths_lem paths n [] h k = absurd (ground arith)
have_paths_lem paths n (l ∷ ns) h k = ground (arith, have_paths_lem paths n ns)

connections_have_paths_lem :
    (paths : Dict ℕ String) (n : ℕ) (es : List ExternalConnectionSettings)
    → connections_have_paths paths es ≡ true
    → is_listed n es ≡ true
    → contains number_eq n paths ≡ true
unfolding connections_have_paths
connections_have_paths_lem paths n [] h k = absurd (ground arith)
connections_have_paths_lem paths n (e ∷ es) h k =
    ground (arith, connections_have_paths_lem paths n es, have_paths_lem paths n e.modules)

filled_lem :
    (j : Json) (t : Text) (argument : Option ℕ) (c : Configuration j) (s : Settings)
    → fill_settings j t argument c ≡ returned s
    → (s.port < 2 ^ 16) × All (λ e. is_valid_type e.protocol_type ≡ true) s.external_connections
unfolding fill_settings
filled_lem j t argument c s h =
    elim (Outcome-cases (fill_module_paths_settings j t c.module_paths [])) [
      | inl (x, e) ↦ absurd (ground (arith, e, h))
      | inr (paths, e) ↦
          let port : as_port (elim argument [ none ↦ c.port | some n ↦ n ]) ≡ s.port =
            ground (arith, e, h) in
          let es : fill_external_connection_settings j t c.endpoints ≡ s.external_connections =
            ground (arith, e, h) in
          (ground (arith, port), rw (← es) (all_types_valid j t c.endpoints))
    ]

-- Settings that are parsed are usable: a module of a connection has a path, there is a module, the
-- company and the vehicle are names, the port is one, and no connection's protocol is invalid.
pub parse_settings-usable :
    (exists is_name : String → Bool) (j : Json) (t : Text) (a : Arguments) (c : Configuration j)
    (s : Settings) (n : ℕ)
    → parse_settings exists is_name j t a c ≡ returned (some s)
    → is_listed n s.external_connections ≡ true
    → (contains number_eq n s.module_paths ≡ true)
      × (is_nil s.module_paths ≡ false)
      × (is_name s.company ≡ true)
      × (is_name s.vehicle_name ≡ true)
      × (s.port < 2 ^ 16)
      × All (λ e. is_valid_type e.protocol_type ≡ true) s.external_connections
unfolding parse_settings are_settings_correct
parse_settings-usable exists is_name j t a c s n h k =
    elim (Bool-cases (ltb 0 a.help_count || a.argc == 1)) [
      | inl p ↦ absurd (ground (arith, p, h))
      | inr p ↦ elim (Bool-cases (are_cmd_arguments_correct a)) [
        | inl q ↦
            elim (Outcome-cases
              (fill_settings j t (if ltb 0 a.port_count then some a.port else none) c)) [
                | inl (x, e) ↦ absurd (ground (arith, p, q, e, h))
                | inr (z, e) ↦ elim (Bool-cases (are_settings_correct exists is_name z)) [
                  | inl correct ↦
                      let same : z ≡ s = ground (arith, p, q, e, correct, h) in
                      let filled = filled_lem j t _ c s (e ∙ ap returned same) in
                      let checked =
                        subst (λ y. are_settings_correct exists is_name y ≡ true) same correct in
                      let listed =
                        connections_have_paths_lem s.module_paths n s.external_connections in
                      (
                        listed (ground (arith, checked)) k,
                        ground (arith, checked),
                        ground (arith, checked),
                        ground (arith, checked),
                        filled.0,
                        filled.1,
                      )
                  | inr wrong ↦ absurd (ground (arith, p, q, e, wrong, h))
                ]
              ]
        | inr q ↦ absurd (ground (arith, p, q, h))
      ]
    ]
