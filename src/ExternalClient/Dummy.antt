-- ===== src/ExternalClient/Dummy.antt =====
-- source/bringauto/external_client/connection/communication/DummyCommunication.cpp: the channel that
-- takes every message while it is connected, and receives none.
use module_gateway.Common.{Bool, true, false, Option, none, if◌then◌else◌}
use module_gateway.ExternalClient.Messages.{ExternalClient, ExternalServer}

pub record DummyCommunication : Type 0 where
  pub is_connected : Bool

unfoldable pub initialize_connection : DummyCommunication → DummyCommunication
initialize_connection d = record d { is_connected = true }

unfoldable pub send_message : ExternalClient → DummyCommunication → DummyCommunication × Bool
send_message message d = if d.is_connected then (d, true) else (d, false)

unfoldable pub receive_message : DummyCommunication → DummyCommunication × Option ExternalServer
receive_message d = (d, none)

unfoldable pub close_connection : DummyCommunication → DummyCommunication
close_connection d = record d { is_connected = false }
