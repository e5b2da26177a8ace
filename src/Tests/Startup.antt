-- ===== src/Tests/Startup.antt =====
-- The theorems on the settings and the modules that are started, applied to one configuration.
use module_gateway.Common.{String, Bool, true, false, [], ◌∷◌, none, ◌≡◌, refl, arith}
use module_gateway.Common.Dict.{assign, contains, find}
use module_gateway.Common.Dict.Numbers.{number_eq}
use module_gateway.Structures.Outcome.{returned}
use module_gateway.Settings.{
  ExternalConnectionSettings, LoggerVerbosity, Settings, mqtt, string_to_logger_verbosity,
  string_to_protocol_type,
}
use module_gateway.Settings.Parser.{
  Configuration, Endpoint, Json, Text, fill_external_connection_settings,
  fill_module_paths_settings, fill_settings, read_setting, read_settings,
}
use module_gateway.Settings.Correct.{
  Arguments, are_cmd_arguments_correct, are_settings_correct, connections_have_paths, have_paths,
  parse_settings,
}
use module_gateway.Settings.Serializing.{
  fill_settings-serialize_to_json, serialize_to_json, write_setting,
}
use module_gateway.ModuleLibrary.{init_status_aggregators, load_libraries}
use module_gateway.ModuleLibrary.Starting.{parse_settings-started}
use module_gateway.Tests.{sample_library}

-- Values that are strings.
abbrev sample_json : Json
sample_json = record {
  Value = String;
  is_string = λ v. true;
  get_string = λ v. v;
  to_string = λ v. v;
  from_string = λ v. v;
  accept = λ v. false;
  parse = λ v. v;
}

-- Every key is the number 1.
abbrev sample_text : Text
sample_text = record { to_upper = λ s. s; stoi = λ s. returned 1; number_text = λ n. "1" }

abbrev sample_endpoint : Endpoint sample_json
sample_endpoint = record {
  protocol_type = "MQTT";
  server_ip = "127.0.0.1";
  port = 1883;
  modules = 1 ∷ [];
  sections = ("mqtt-settings", ("ssl", "true") ∷ []) ∷ [];
}

abbrev sample_configuration : Configuration sample_json
sample_configuration = record {
  console_use = true;
  console_level = "INFO";
  file_use = false;
  file_level = "DEBUG";
  file_path = "";
  port = 1636;
  module_paths = ("1", "libbutton.so") ∷ [];
  module_binary_path = none;
  vehicle_name = "car";
  company = "company";
  endpoints = sample_endpoint ∷ [];
}

abbrev sample_arguments : Arguments
sample_arguments = record {
  argc = 2;
  help_count = 0;
  config_path_count = 1;
  port_count = 0;
  unmatched = [];
  port = 0;
}

abbrev mqtt_connection : ExternalConnectionSettings
mqtt_connection = record {
  protocol_type = mqtt;
  protocol_settings = ("ssl", "true") ∷ [];
  server_ip = "127.0.0.1";
  port = 1883;
  modules = 1 ∷ [];
}

abbrev sample_settings : Settings
sample_settings = record {
  port = 1636;
  company = "company";
  vehicle_name = "car";
  module_paths = (1, "libbutton.so") ∷ [];
  module_binary_path = "";
  external_connections = mqtt_connection ∷ [];
  console = record { use_console = true; level = LoggerVerbosity.info };
  file = record { use_file = false; level = LoggerVerbosity.debug; path = "" };
}

abbrev always : String → Bool
always s = true

parse_settings-started_example :
    contains number_eq 1
      (init_status_aggregators (mqtt_connection ∷ []) ((1, sample_library) ∷ []) [])
    ≡ true
unfolding parse_settings are_cmd_arguments_correct fill_settings fill_module_paths_settings
    are_settings_correct assign connections_have_paths fill_external_connection_settings
    string_to_protocol_type have_paths contains find string_to_logger_verbosity read_settings
    read_setting load_libraries
parse_settings-started_example =
    parse_settings-started always always sample_json sample_text sample_arguments
      sample_configuration sample_settings (λ path. sample_library) ((1, sample_library) ∷ []) 1
      refl refl refl

fill_settings-serialize_to_json_example :
    fill_settings sample_json sample_text none
      (serialize_to_json sample_json sample_text sample_settings)
    ≡ returned (record sample_settings { module_binary_path = "" })
unfolding contains read_setting write_setting
fill_settings-serialize_to_json_example =
    fill_settings-serialize_to_json sample_json sample_text sample_settings
      (refl, (refl, (refl, (refl, (refl, (refl, (refl, (refl, tt)))))))) (refl, tt) (omega arith)
      (refl, tt)
      (
        record {
          valid = refl;
          port_bound = omega arith;
          settings = refl;
          distinct = (refl, tt);
          values = (refl, tt);
        },
        tt,
      )
