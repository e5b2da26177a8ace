-- ===== src/ExternalClient/Connection/ConnectedDevices/Losing.antt =====
-- A status that is taken while a connection is made, after the statuses of the connect sequence were
-- sent: `drainQueueDuringConnect` runs on a thread beside `initializeConnection`.
use module_gateway.Common.Dict.{Dict}
use module_gateway.ExternalClient.Messages.{ExternalClient}
use module_gateway.ExternalClient.Connection.{ErrorAggregator}
