-- ===== src/Structures/Module.antt =====
-- include/bringauto/modules/IModuleManagerLibraryHandler.hpp: what the gateway asks of a module's
-- library, which is no part of the repository. Each call is a function of its arguments; a call
-- that fills a buffer answers with the code and that buffer. A handler throws where its library answers
-- OK and has allocated no buffer (ModuleLibrary/Local and Async have these exceptions): this interface is
-- that of a library which allocates what it answers, as ModuleLibrary/Implements has it.
use module_gateway.Common.{ℕ}
use module_gateway.Structures.Buffer.{Buffer}
use module_gateway.Structures.ReturnCode.{ReturnCode}

pub record ModuleLibraryHandler : Type 0 where
  pub module_number : ℕ
  pub is_device_type_supported : ℕ → ReturnCode
  pub send_status_condition : Buffer → Buffer → ℕ → ReturnCode
  pub generate_command : Buffer → Buffer → Buffer → ℕ → ReturnCode × Buffer
  pub aggregate_status : Buffer → Buffer → ℕ → ReturnCode × Buffer
  pub aggregate_error : Buffer → Buffer → ℕ → ReturnCode × Buffer
  pub generate_first_command : ℕ → ReturnCode × Buffer
  pub status_data_valid : Buffer → ℕ → ReturnCode
  pub command_data_valid : Buffer → ℕ → ReturnCode
  pub forward_command_on_receive : ℕ → ReturnCode
