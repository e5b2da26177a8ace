-- ===== src/InternalServer.antt =====
-- source/bringauto/internal_server/InternalServer.cpp: the server that the devices of the vehicle
-- connect to. `Framing` has the receive buffer, `Connections` the connected devices.
pub mod Framing
pub mod Connections
