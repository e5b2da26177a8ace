-- ===== src/Tests.antt =====
-- Sample values: two devices, a library of a module, and calls. The theorems are applied to them.
mod Aggregator
mod Client
mod Connection
mod Queues
mod Startup
mod Gateway
mod Handler
mod Libraries
mod Mqtt
mod Quic
mod Server
use module_gateway.Common.{ℕ, Bool, true, false, List, [], ◌∷◌, ◌==◌, if◌then◌else◌}
use module_gateway.Structures.Buffer.{Buffer}
use module_gateway.Structures.ReturnCode.{ok, not_ok}
use module_gateway.Structures.Device.{DeviceIdentification}
use module_gateway.Structures.Module.{ModuleLibraryHandler}

abbrev pub button : DeviceIdentification
button = record {
  module_number = 1;
  device_type = 1;
  device_role = "role";
  device_name = "button";
  priority = 2;
}

-- Another of the same device, with a lower priority number.
abbrev pub main_button : DeviceIdentification
main_button = record {
  module_number = 1;
  device_type = 1;
  device_role = "role";
  device_name = "main button";
  priority = 0;
}

abbrev pub lamp : DeviceIdentification
lamp = record {
  module_number = 1;
  device_type = 2;
  device_role = "role";
  device_name = "lamp";
  priority = 0;
}

abbrev pub buffer_of : List ℕ → Buffer
buffer_of bytes = record { has_data = true; bytes = bytes }

-- A device of type 2 has its commands forwarded at once; type 9 is not supported. The newest status
-- and error replace the last, each status is worth sending, and commands stay as they are.
abbrev pub sample_library : ModuleLibraryHandler
sample_library = record {
  module_number = 1;
  is_device_type_supported = λ t. if t == 9 then not_ok else ok;
  send_status_condition = λ last next t. ok;
  generate_command = λ status last command t. (ok, command);
  aggregate_status = λ last next t. (ok, next);
  aggregate_error = λ error status t. (ok, status);
  generate_first_command = λ t. (ok, buffer_of (7 ∷ []));
  status_data_valid = λ status t. ok;
  command_data_valid = λ command t. ok;
  forward_command_on_receive = λ t. if t == 2 then ok else not_ok;
}
