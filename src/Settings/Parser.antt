-- ===== src/Settings/Parser.antt =====
-- source/bringauto/settings/SettingsParser.cpp: from the values of the configuration file to the
-- settings. The JSON library, ::toupper and std::stoi are parameters: a configuration has the values
-- that the parser takes from the file, where it has each that is required. Numbers are not negative.
use module_gateway.Common.{
  ℕ, ◌%◌, ◌^◌, String, Bool, List, [], ◌∷◌, Option, none, some, if◌then◌else◌,
}
use module_gateway.Common.Dict.{Dict, find, assign}
use module_gateway.Common.Dict.Numbers.{number_eq}
use module_gateway.Structures.Outcome.{Outcome, returned, ◌>>=◌}
use module_gateway.Settings.{
  ProtocolType, invalid, mqtt, quic, dummy, ExternalConnectionSettings, Settings, text_eq,
  string_to_protocol_type, string_to_logger_verbosity,
}

-- nlohmann::json, for the values of a protocol's settings.
pub record Json : Type 1 where
  pub Value : Type 0
  pub is_string : Value → Bool
  pub get_string : Value → String
  pub to_string : Value → String
  pub from_string : String → Value
  pub accept : String → Bool
  pub parse : String → Value

-- ::toupper on a string, std::stoi and std::to_string.
pub record Text : Type 0 where
  pub to_upper : String → String
  pub stoi : String → Outcome ℕ
  pub number_text : ℕ → String

pub record Endpoint (j : Json) : Type 0 where
  pub protocol_type : String
  pub server_ip : String
  pub port : ℕ
  pub modules : List ℕ
  -- The objects of the endpoint, by their names.
  pub sections : Dict String (List (String × j.Value))

pub record Configuration (j : Json) : Type 0 where
  pub console_use : Bool
  pub console_level : String
  pub file_use : Bool
  pub file_level : String
  pub file_path : String
  pub port : ℕ
  pub module_paths : List (String × String)
  pub module_binary_path : Option String
  pub vehicle_name : String
  pub company : String
  pub endpoints : List (Endpoint j)

-- An unsigned short.
abbrev pub as_port : ℕ → ℕ
as_port n = n % 2 ^ 16

-- The section that has the settings of a protocol, and none for a protocol without settings.
abbrev pub settings_name : ProtocolType → Option String
settings_name mqtt = some "mqtt-settings"
settings_name quic = some "quic-settings"
settings_name dummy = none
settings_name invalid = none

module _ (j : Json) (t : Text) where
  unfoldable pub read_setting : j.Value → String
  read_setting v = if j.is_string v then j.get_string v else j.to_string v

  unfoldable pub read_settings : List (String × j.Value) → Dict String String → Dict String String
  read_settings [] d = d
  read_settings ((key, v) ∷ items) d = read_settings items (assign text_eq key (read_setting v) d)

  abbrev pub protocol_settings_of :
      Dict String (List (String × j.Value)) → Option String → Dict String String
  protocol_settings_of sections none = []
  protocol_settings_of sections (some name) = elim (find text_eq name sections) [
    | none ↦ []
    | some items ↦ read_settings items []
  ]

  -- An endpoint with an invalid protocol is skipped.
  unfoldable pub fill_external_connection_settings :
      List (Endpoint j) → List ExternalConnectionSettings
  fill_external_connection_settings [] = []
  fill_external_connection_settings (e ∷ es) =
      let type = string_to_protocol_type t.to_upper e.protocol_type in
      let filled : ExternalConnectionSettings = record {
        protocol_type = type;
        protocol_settings = protocol_settings_of e.sections (settings_name type);
        server_ip = e.server_ip;
        port = as_port e.port;
        modules = e.modules;
      } in
      let others = fill_external_connection_settings es in
      elim type [ invalid ↦ others | _ ↦ filled ∷ others ]

  unfoldable pub fill_module_paths_settings :
      List (String × String) → Dict ℕ String → Outcome (Dict ℕ String)
  fill_module_paths_settings [] d = returned d
  fill_module_paths_settings ((key, path) ∷ items) d =
      t.stoi key >>= λ n. fill_module_paths_settings items (assign number_eq n path d)

  -- `fillSettings`, with the port of the command line, if there is one.
  unfoldable pub fill_settings : Option ℕ → Configuration j → Outcome Settings
  fill_settings argument c = fill_module_paths_settings c.module_paths [] >>= λ paths.
      returned (record {
        port = as_port (elim argument [ none ↦ c.port | some n ↦ n ]);
        company = c.company;
        vehicle_name = c.vehicle_name;
        module_paths = paths;
        module_binary_path = elim c.module_binary_path [ none ↦ "" | some path ↦ path ];
        external_connections = fill_external_connection_settings c.endpoints;
        console = record {
          use_console = c.console_use;
          level = string_to_logger_verbosity t.to_upper c.console_level;
        };
        file = record {
          use_file = c.file_use;
          level = string_to_logger_verbosity t.to_upper c.file_level;
          path = c.file_path;
        };
      })
