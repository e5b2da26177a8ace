-- ===== src/ExternalClient/SentMessages.antt =====
-- source/bringauto/external_client/connection/messages: the statuses that wait for the external
-- server's response, and the devices that are connected to it. `endConnectionFunc_` is a callback
-- of the connection: the model counts its calls in `ended`. The timer of a status is boost's.
pub mod Acknowledging
pub mod Ending
pub mod Connected
use module_gateway.Common.{
  ℕ, suc, Bool, true, false, not, ◌&&◌, ◌||◌, List, [], ◌∷◌, ◌++◌, Option, none, some, ◌==◌, map,
  if◌then◌else◌, is_nil,
}
use module_gateway.Structures.ReturnCode.{ReturnCode, ok, not_ok}
use module_gateway.Structures.Device.{DeviceIdentification, same_device}
use module_gateway.Structures.Messages.{DeviceStatus}

-- A status with its message counter, and whether its timer runs.
pub record NotAckedStatus : Type 0 where
  pub message_counter : ℕ
  pub status : DeviceStatus
  pub running : Bool

pub record SentMessagesHandler : Type 0 where
  pub not_acked_statuses : List NotAckedStatus
  pub connected_devices : List DeviceIdentification
  pub response_handled : Bool
  -- The calls of endConnectionFunc_.
  pub ended : ℕ

abbrev pub init : SentMessagesHandler
init = record {
  not_acked_statuses = [];
  connected_devices = [];
  response_handled = false;
  ended = 0;
}

unfoldable pub add_not_acked_status : SentMessagesHandler → ℕ → DeviceStatus → SentMessagesHandler
add_not_acked_status h counter status =
    let sent : NotAckedStatus = record {
      message_counter = counter;
      status = status;
      running = true;
    } in
    record h { not_acked_statuses = h.not_acked_statuses ++ sent ∷ [] }

-- The loop of acknowledgeStatus: the statuses without the first one that has the counter.
unfoldable pub take_acked : ℕ → List NotAckedStatus → Option (List NotAckedStatus)
take_acked counter [] = none
take_acked counter (s ∷ ss) =
    let rest = take_acked counter ss in
    if s.message_counter == counter
    then some ss
    else elim rest [ none ↦ none | some left ↦ some (s ∷ left) ]

unfoldable pub is_any_device_connected : SentMessagesHandler → Bool
is_any_device_connected h = not (is_nil h.connected_devices)

unfoldable pub all_statuses_acked : SentMessagesHandler → Bool
all_statuses_acked h = is_nil h.not_acked_statuses

unfoldable pub acknowledge_status : SentMessagesHandler → ℕ → SentMessagesHandler × ReturnCode
unfolding is_any_device_connected all_statuses_acked
acknowledge_status h counter = elim (take_acked counter h.not_acked_statuses) [
  | none ↦ (h, not_ok)
  | some left ↦
      let acked = record h { not_acked_statuses = left } in
      if not (is_any_device_connected acked) && all_statuses_acked acked
      then (acked, not_ok)
      else (acked, ok)
]

abbrev pub cancel_timer : NotAckedStatus → NotAckedStatus
cancel_timer s = record s { running = false }

unfoldable pub clear_all_timers : SentMessagesHandler → SentMessagesHandler
clear_all_timers h = record h {
  not_acked_statuses = map cancel_timer h.not_acked_statuses;
  response_handled = false;
}

unfoldable pub clear_all : SentMessagesHandler → SentMessagesHandler
unfolding clear_all_timers
clear_all h = record (clear_all_timers h) { not_acked_statuses = [] }

unfoldable pub add_device_as_connected :
    SentMessagesHandler → DeviceIdentification → SentMessagesHandler
add_device_as_connected h d = record h { connected_devices = h.connected_devices ++ d ∷ [] }

unfoldable pub erase_device :
    DeviceIdentification → List DeviceIdentification → List DeviceIdentification
erase_device d [] = []
erase_device d (e ∷ es) = if same_device e d then es else e ∷ erase_device d es

unfoldable pub delete_connected_device :
    SentMessagesHandler → DeviceIdentification → SentMessagesHandler
delete_connected_device h d = record h { connected_devices = erase_device d h.connected_devices }

unfoldable pub any_same : DeviceIdentification → List DeviceIdentification → Bool
any_same d [] = false
any_same d (e ∷ es) = same_device d e || any_same d es

unfoldable pub is_device_connected : SentMessagesHandler → DeviceIdentification → Bool
is_device_connected h d = any_same d h.connected_devices

-- timeoutHandler of a status: the connection is ended unless that was already handled.
unfoldable pub timeout_handler : SentMessagesHandler → SentMessagesHandler
timeout_handler h =
    if h.response_handled then h else record h { response_handled = true; ended = suc h.ended }
