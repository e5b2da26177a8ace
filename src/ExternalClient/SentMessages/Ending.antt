-- ===== src/ExternalClient/SentMessages/Ending.antt =====
-- How often the timeouts of the statuses end the connection.
use module_gateway.Common.{ℕ, suc, ◌+◌, ◌≤◌, List, [], ◌∷◌, if◌then◌else◌, arith}
use module_gateway.Structures.Device.{DeviceIdentification}
use module_gateway.Structures.Messages.{DeviceStatus}
use module_gateway.ExternalClient.SentMessages.{
  SentMessagesHandler, init, add_not_acked_status, acknowledge_status, clear_all, clear_all_timers,
  add_device_as_connected, delete_connected_device, timeout_handler,
}
use module_gateway.ExternalClient.SentMessages.Acknowledging.{acknowledge_status_lem}

pub data Call : Type 0 where
  add_call : ℕ → DeviceStatus → Call
  acknowledge_call : ℕ → Call
  clear_call clear_timers_call timeout_call : Call
  connect_call disconnect_call : DeviceIdentification → Call

unfoldable pub step : SentMessagesHandler → Call → SentMessagesHandler
step h (add_call counter status) = add_not_acked_status h counter status
step h (acknowledge_call counter) = (acknowledge_status h counter).0
step h clear_call = clear_all h
step h clear_timers_call = clear_all_timers h
step h timeout_call = timeout_handler h
step h (connect_call d) = add_device_as_connected h d
step h (disconnect_call d) = delete_connected_device h d

unfoldable pub run : SentMessagesHandler → List Call → SentMessagesHandler
run h [] = h
run h (c ∷ cs) = run (step h c) cs

-- Clearing the timers is what lets a timeout end the connection again.
abbrev pub rearms : Call → ℕ
rearms clear_call = 1
rearms clear_timers_call = 1
rearms _ = 0

abbrev pub count_rearms : List Call → ℕ
count_rearms [] = 0
count_rearms (c ∷ cs) = rearms c + count_rearms cs

abbrev open_endings : SentMessagesHandler → ℕ
open_endings h = if h.response_handled then 0 else 1

step-ended :
    (h : SentMessagesHandler) (c : Call)
    → (step h c).ended + open_endings (step h c) ≤ h.ended + open_endings h + rearms c
unfolding step add_not_acked_status clear_all clear_all_timers timeout_handler
    add_device_as_connected delete_connected_device
step-ended h (add_call counter status) = ground arith
step-ended h (acknowledge_call counter) = ground (arith, acknowledge_status_lem h counter)
step-ended h clear_call = ground arith
step-ended h clear_timers_call = ground arith
step-ended h timeout_call = ground arith
step-ended h (connect_call d) = ground arith
step-ended h (disconnect_call d) = ground arith

run-ended :
    (cs : List Call) (h : SentMessagesHandler)
    → (run h cs).ended + open_endings (run h cs) ≤ h.ended + open_endings h + count_rearms cs
unfolding run
run-ended [] h = omega arith
run-ended (c ∷ cs) h = omega (arith, run-ended cs (step h c), step-ended h c)

-- However many timers run out, between any other calls, the connection is ended at most once from
-- the start and once more after each time that the timers are cleared.
pub run-init-ended : (cs : List Call) → (run init cs).ended ≤ suc (count_rearms cs)
run-init-ended cs = omega (arith, run-ended cs init)
