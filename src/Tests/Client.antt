-- ===== src/Tests/Client.antt =====
-- The theorems on what is kept for the external client, applied to a few statuses and calls.
use module_gateway.Common.{suc, ◌≤◌, List, [], ◌∷◌}
use module_gateway.Structures.Buffer.{Buffer}
use module_gateway.Structures.Device.{DeviceIdentification}
use module_gateway.Structures.Messages.{DeviceStatus}
use module_gateway.ExternalClient.SentMessages.{
  SentMessagesHandler, init, add_not_acked_status, add_device_as_connected,
}
use module_gateway.ExternalClient.SentMessages.Ending.{
  Call, run, add_call, timeout_call, clear_call, count_rearms, run-init-ended,
}
use module_gateway.Tests.{button, lamp, buffer_of}

abbrev statuses : List (DeviceIdentification × Buffer)
statuses =
    (button, buffer_of (1 ∷ [])) ∷ (lamp, buffer_of (2 ∷ [])) ∷ (button, buffer_of (3 ∷ [])) ∷ []

abbrev button_status : DeviceStatus
button_status = record { device = button; status_data = 1 ∷ [] }

abbrev two_sent : SentMessagesHandler
two_sent =
    add_not_acked_status
      (add_not_acked_status (add_device_as_connected init button) 4 button_status) 5 button_status

abbrev sent_calls : List Call
sent_calls = add_call 1 button_status ∷ timeout_call ∷ timeout_call ∷ clear_call ∷ timeout_call ∷ []

run-init-ended_example : (run init sent_calls).ended ≤ suc (count_rearms sent_calls)
run-init-ended_example = run-init-ended sent_calls
