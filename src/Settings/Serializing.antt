-- ===== src/Settings/Serializing.antt =====
-- `serializeToJson` of SettingsParser.cpp, and what the parser reads back.
use mathlib.Core.List.{append_assoc, append-nil}
use module_gateway.Common.{
  ℕ, ◌<◌, ◌^◌, String, Bool, true, false, ◌||◌, List, [], ◌∷◌, ◌++◌, none, some, map, if◌then◌else◌,
  is_nil, ◌≡◌, refl, sym, ap, All, arith,
}
use module_gateway.Common.Dict.{Dict, find, Distinct, Entries}
use module_gateway.Common.Dict.Fresh.{assign_fresh, Distinct-append}
use module_gateway.Common.Dict.Numbers.{number_eq}
use module_gateway.Structures.Outcome.{returned}
use module_gateway.Settings.{
  LoggerVerbosity, ProtocolType, invalid, mqtt, quic, dummy, ExternalConnectionSettings, Settings,
  text_eq, string_to_protocol_type, string_to_logger_verbosity, protocol_type_to_string,
  logger_verbosity_to_string,
}
use module_gateway.Settings.Parser.{
  Json, Text, Endpoint, Configuration, as_port, settings_name, read_setting, read_settings,
  protocol_settings_of, fill_external_connection_settings, fill_module_paths_settings,
  fill_settings,
}
use module_gateway.Settings.Correct.{is_valid_type}

abbrev pub section_name : ProtocolType → String
section_name mqtt = "mqtt-settings"
section_name quic = "quic-settings"
section_name dummy = ""
section_name invalid = "INVALID"

module _ (j : Json) (t : Text) where
  unfoldable pub write_setting : String → j.Value
  write_setting v = if j.accept v then j.parse v else j.from_string v

  unfoldable pub write_settings : Dict String String → List (String × j.Value)
  write_settings [] = []
  write_settings ((key, v) ∷ items) = (key, write_setting v) ∷ write_settings items

  unfoldable pub sections_of :
      ProtocolType → Dict String String → Dict String (List (String × j.Value))
  sections_of p [] = []
  sections_of p (item ∷ items) = (section_name p, write_settings (item ∷ items)) ∷ []

  unfoldable pub serialize_endpoint : ExternalConnectionSettings → Endpoint j
  serialize_endpoint e = record {
    protocol_type = protocol_type_to_string e.protocol_type;
    server_ip = e.server_ip;
    port = e.port;
    modules = e.modules;
    sections = sections_of e.protocol_type e.protocol_settings;
  }

  unfoldable pub write_module_paths : Dict ℕ String → List (String × String)
  write_module_paths [] = []
  write_module_paths ((n, path) ∷ paths) = (t.number_text n, path) ∷ write_module_paths paths

  unfoldable pub serialize_to_json : Settings → Configuration j
  serialize_to_json s = record {
    console_use = s.console.use_console;
    console_level = logger_verbosity_to_string s.console.level;
    file_use = s.file.use_file;
    file_level = logger_verbosity_to_string s.file.level;
    file_path = s.file.path;
    port = s.port;
    module_paths = write_module_paths s.module_paths;
    module_binary_path = none;
    vehicle_name = s.vehicle_name;
    company = s.company;
    endpoints = map serialize_endpoint s.external_connections;
  }

  -- The strings that the enumerations are written as.
  abbrev pub names : List String
  names = "MQTT" ∷ "QUIC" ∷ "DUMMY" ∷ "DEBUG" ∷ "INFO" ∷ "WARNING" ∷ "ERROR" ∷ "CRITICAL" ∷ []

  abbrev pub KeepsUpper : Type 0
  KeepsUpper = All (λ name. t.to_upper name ≡ name) names

  string_to_protocol_type_lem :
      KeepsUpper
      → (p : ProtocolType) → is_valid_type p ≡ true
      → string_to_protocol_type t.to_upper (protocol_type_to_string p) ≡ p
  unfolding string_to_protocol_type protocol_type_to_string
  string_to_protocol_type_lem u mqtt v = rw (u.0)
  string_to_protocol_type_lem u quic v = rw (u.1.0)
  string_to_protocol_type_lem u dummy v = rw (u.1.1.0)
  string_to_protocol_type_lem u invalid v = absurd (ground arith)

  string_to_logger_verbosity_lem :
      KeepsUpper
      → (l : LoggerVerbosity)
      → string_to_logger_verbosity t.to_upper (logger_verbosity_to_string l) ≡ l
  unfolding string_to_logger_verbosity logger_verbosity_to_string
  string_to_logger_verbosity_lem u LoggerVerbosity.debug = rw (u.1.1.1.0)
  string_to_logger_verbosity_lem u LoggerVerbosity.info = rw (u.1.1.1.1.0)
  string_to_logger_verbosity_lem u LoggerVerbosity.warning = rw (u.1.1.1.1.1.0)
  string_to_logger_verbosity_lem u LoggerVerbosity.error = rw (u.1.1.1.1.1.1.0)
  string_to_logger_verbosity_lem u LoggerVerbosity.critical = rw (u.1.1.1.1.1.1.1.0)

  read_settings_lem :
      (items acc : Dict String String)
      → Entries (λ key v. read_setting j t (write_setting v) ≡ v) items
      → Distinct text_eq (acc ++ items)
      → read_settings j t (write_settings items) acc ≡ acc ++ items
  unfolding read_settings write_settings
  read_settings_lem [] acc h u = sym (append-nil acc)
  read_settings_lem ((key, v) ∷ items) acc h u =
      let put = assign_fresh text_eq key v acc (Distinct-append text_eq key v acc items u) in
      let shifted = append_assoc acc ((key, v) ∷ []) items in
      let later = read_settings_lem items (acc ++ (key, v) ∷ []) h.1 (rw shifted u) in
      ground (arith, put, later, shifted, h.0)

  fill_module_paths_settings_lem :
      (paths acc : Dict ℕ String)
      → Entries (λ n path. t.stoi (t.number_text n) ≡ returned n) paths
      → Distinct number_eq (acc ++ paths)
      → fill_module_paths_settings j t (write_module_paths paths) acc ≡ returned (acc ++ paths)
  unfolding fill_module_paths_settings write_module_paths
  fill_module_paths_settings_lem [] acc r u = ap returned (sym (append-nil acc))
  fill_module_paths_settings_lem ((n, path) ∷ paths) acc r u =
      let put = assign_fresh number_eq n path acc (Distinct-append number_eq n path acc paths u) in
      let shifted = append_assoc acc ((n, path) ∷ []) paths in
      let later = fill_module_paths_settings_lem paths (acc ++ (n, path) ∷ []) r.1 (rw shifted u) in
      ground (arith, put, later, shifted, r.0)

  abbrev pub has_settings : ProtocolType → Bool
  has_settings p = elim (settings_name p) [ none ↦ false | some name ↦ true ]

  -- A connection whose protocol is valid, whose port is one, that has settings only where its
  -- protocol has some, with distinct names, and each of which is read as it was written.
  pub record IsStable (e : ExternalConnectionSettings) : Type 0 where
    pub valid : is_valid_type e.protocol_type ≡ true
    pub port_bound : e.port < 2 ^ 16
    pub settings : (has_settings e.protocol_type || is_nil e.protocol_settings) ≡ true
    pub distinct : Distinct text_eq e.protocol_settings
    pub values : Entries (λ key v. read_setting j t (write_setting v) ≡ v) e.protocol_settings

  protocol_settings_of_lem :
      (p : ProtocolType) (d : Dict String String)
      → is_valid_type p ≡ true
      → (has_settings p || is_nil d) ≡ true
      → Distinct text_eq d
      → Entries (λ key v. read_setting j t (write_setting v) ≡ v) d
      → protocol_settings_of j t (sections_of p d) (settings_name p) ≡ d
  unfolding sections_of find
  protocol_settings_of_lem invalid d v h u w = absurd (ground (arith, v))
  protocol_settings_of_lem dummy [] v h u w = refl
  protocol_settings_of_lem dummy (x ∷ d) v h u w = absurd (ground (arith, h))
  protocol_settings_of_lem mqtt [] v h u w = refl
  protocol_settings_of_lem mqtt (x ∷ d) v h u w = read_settings_lem (x ∷ d) [] w u
  protocol_settings_of_lem quic [] v h u w = refl
  protocol_settings_of_lem quic (x ∷ d) v h u w = read_settings_lem (x ∷ d) [] w u

  fill_external_connection_settings_lem :
      KeepsUpper
      → (es : List ExternalConnectionSettings) → All IsStable es
      → fill_external_connection_settings j t (map serialize_endpoint es) ≡ es
  unfolding fill_external_connection_settings serialize_endpoint
  fill_external_connection_settings_lem u [] h = refl
  fill_external_connection_settings_lem u (e ∷ es) h =
      let s = h.0 in
      let later = fill_external_connection_settings_lem u es h.1 in
      let type = string_to_protocol_type_lem u e.protocol_type s.valid in
      let settings =
        protocol_settings_of_lem e.protocol_type e.protocol_settings s.valid s.settings s.distinct
          s.values in
      let port : as_port e.port ≡ e.port = omega (arith, s.port_bound) in
      ground (arith, type, settings, port, later, s.valid)

  -- Settings without a path of a module binary, whose port is one, with distinct module
  -- numbers that are read as they were written, and stable connections, are read back as they were.
  pub fill_settings-serialize_to_json :
      (s : Settings)
      → KeepsUpper
      → Entries (λ n path. t.stoi (t.number_text n) ≡ returned n) s.module_paths
      → s.port < 2 ^ 16
      → Distinct number_eq s.module_paths
      → All IsStable s.external_connections
      → fill_settings j t none (serialize_to_json s)
        ≡ returned (record s { module_binary_path = "" })
  unfolding fill_settings serialize_to_json
  fill_settings-serialize_to_json s u r bound distinct stable =
      let paths = fill_module_paths_settings_lem s.module_paths [] r distinct in
      let es = fill_external_connection_settings_lem u s.external_connections stable in
      let console = string_to_logger_verbosity_lem u s.console.level in
      let file = string_to_logger_verbosity_lem u s.file.level in
      let port : as_port s.port ≡ s.port = omega (arith, bound) in
      ground (arith, paths, es, console, file, port)
