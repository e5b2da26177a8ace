-- ===== src/Settings.antt =====
-- include/bringauto/settings/Settings.hpp and structures/{LoggingSettings,ExternalConnectionSettings}.hpp:
-- the settings, and the names of their enumerations (common_utils/EnumUtils). `to_upper` is what
-- std::transform makes of a string with ::toupper.
pub mod Parser
pub mod Correct
pub mod Serializing
pub mod QuicSettings
use text.Mathlib.Text.{◌==◌ as str_eq}
use text.Mathlib.TextEquality.{eq_iff}
use module_gateway.Common.{ℕ, String, Bool, true, false, List, if◌then◌else◌, ◌≡◌, arith}
use module_gateway.Common.Dict.{KeyEq, Dict}

pub data LoggerVerbosity : Type 0 where
  debug info warning error critical : LoggerVerbosity

pub data ProtocolType : Type 0 where
  invalid mqtt quic dummy : ProtocolType

pub record ConsoleSettings : Type 0 where
  pub use_console : Bool
  pub level : LoggerVerbosity

pub record FileSettings : Type 0 where
  pub use_file : Bool
  pub level : LoggerVerbosity
  pub path : String

pub record ExternalConnectionSettings : Type 0 where
  pub protocol_type : ProtocolType
  pub protocol_settings : Dict String String
  pub server_ip : String
  pub port : ℕ
  pub modules : List ℕ

pub record Settings : Type 0 where
  pub port : ℕ
  pub company : String
  pub vehicle_name : String
  pub module_paths : Dict ℕ String
  pub module_binary_path : String
  pub external_connections : List ExternalConnectionSettings
  pub console : ConsoleSettings
  pub file : FileSettings

pub text_refl : (a : String) → str_eq a a ≡ true
text_refl a = ground (arith, eq_iff a a)

pub text_sym : (a b : String) → str_eq a b ≡ str_eq b a
text_sym a b = ground (arith, eq_iff a b, eq_iff b a)

pub text_trans : (a b c : String) → str_eq a b ≡ true → str_eq a c ≡ str_eq b c
text_trans a b c h = ground (arith, eq_iff a b, eq_iff a c, eq_iff b c)

abbrev pub text_eq : KeyEq String
text_eq = record {
  same = str_eq;
  same_refl = text_refl;
  same_sym = text_sym;
  same_trans = text_trans;
}

module _ (to_upper : String → String) where
  unfoldable pub string_to_protocol_type : String → ProtocolType
  string_to_protocol_type name =
      let upper = to_upper name in
      if str_eq upper "MQTT"
      then mqtt
      else if str_eq upper "QUIC"
      then quic
      else if str_eq upper "DUMMY"
      then dummy
      else invalid

  unfoldable pub string_to_logger_verbosity : String → LoggerVerbosity
  string_to_logger_verbosity name =
      let upper = to_upper name in
      if str_eq upper "DEBUG"
      then debug
      else if str_eq upper "INFO"
      then info
      else if str_eq upper "WARNING"
      then warning
      else if str_eq upper "ERROR"
      then error
      else if str_eq upper "CRITICAL"
      then critical
      else debug

unfoldable pub protocol_type_to_string : ProtocolType → String
protocol_type_to_string mqtt = "MQTT"
protocol_type_to_string quic = "QUIC"
protocol_type_to_string dummy = "DUMMY"
protocol_type_to_string invalid = ""

unfoldable pub logger_verbosity_to_string : LoggerVerbosity → String
logger_verbosity_to_string debug = "DEBUG"
logger_verbosity_to_string info = "INFO"
logger_verbosity_to_string warning = "WARNING"
logger_verbosity_to_string error = "ERROR"
logger_verbosity_to_string critical = "CRITICAL"
