-- ===== src/ExternalClient/Client/Forwarding.antt =====
-- A command on its way from the external client to the device.
use module_gateway.Structures.Buffer.{Buffer}
use module_gateway.Structures.DeviceState.{DeviceState}
use module_gateway.StatusAggregator.{StatusAggregator}
use module_gateway.ModuleHandler.Dispatch.{Module, ModuleHandler}
use module_gateway.ExternalClient.Client.{ExternalClient}
