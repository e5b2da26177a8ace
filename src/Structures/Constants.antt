-- ===== src/Structures/Constants.antt =====
-- include/bringauto/settings/Constants.hpp; durations in seconds.
use module_gateway.Common.{ℕ}

abbrev pub status_aggregation_timeout : ℕ
status_aggregation_timeout = 15

abbrev pub status_aggregation_timeout_max_count : ℕ
status_aggregation_timeout_max_count = 2

abbrev pub max_external_commands : ℕ
max_external_commands = 3

abbrev pub header : ℕ
header = 4

abbrev pub buffer_length : ℕ
buffer_length = 1024
