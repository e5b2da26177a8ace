-- ===== src/ExternalClient.antt =====
-- source/bringauto/external_client: the external client, its connections to external servers, what is
-- kept about each, and the channels that they use.
pub mod ErrorAggregator
pub mod SentMessages
pub mod Messages
pub mod Connection
pub mod Client
pub mod Mqtt
pub mod Quic
pub mod Dummy
