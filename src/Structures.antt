-- ===== src/Structures.antt =====
-- The data that the components exchange: buffers, devices, messages, return codes, and the state
-- that the status aggregator keeps of a device (include/bringauto/structures,
-- include/bringauto/modules/Buffer.hpp).
pub mod Buffer
pub mod ReturnCode
pub mod Outcome
pub mod Device
pub mod Module
pub mod Constants
pub mod ThreadTimer
pub mod DeviceState
pub mod Messages
