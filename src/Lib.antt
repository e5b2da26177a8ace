-- ===== src/Lib.antt =====
-- bringauto module-gateway: a gateway between the devices of a vehicle (internal clients) and
-- external servers.
--
-- A device connects over TCP to the InternalServer, which cuts the received bytes into messages,
-- keeps one connection per device, and passes messages on through a queue. The ModuleHandler takes
-- them: it looks up the module of the device, adds each status to the module's StatusAggregator,
-- answers with a command through a second queue, and passes aggregated statuses on to the external
-- client through a third. The external client sends them to the external servers; commands that
-- come back go to the StatusAggregator. The external client has a connection per server, which it
-- makes by a connect sequence and makes again when it ends; what could not be sent is kept by the
-- ErrorAggregator. At the start the settings are parsed, and the libraries of their modules
-- loaded.
--
-- Which file models which part (paths are those of the repository):
--
--   Common                   Boolean tests, lists, and Dict, a map up to an equivalence of keys
--   Structures/Device        source/bringauto/structures/DeviceIdentification.cpp
--   Structures/DeviceState   source/bringauto/structures/StatusAggregatorDeviceState.cpp
--   Structures/ThreadTimer   source/bringauto/structures/ThreadTimer.cpp
--   Structures/Buffer, Constants, Messages, Module
--                            include/bringauto/modules/Buffer.hpp, settings/Constants.hpp,
--                            structures/InternalClientMessage.hpp and ModuleHandlerMessage.hpp,
--                            common_utils/ProtobufUtils.cpp, and the interface
--                            modules/IModuleManagerLibraryHandler.hpp
--   StatusAggregator         source/bringauto/modules/StatusAggregator.cpp
--   InternalServer/Framing   source/bringauto/internal_server/InternalServer.cpp: the method
--                            processBufferData
--   InternalServer/Connections
--                            the same file: the connected devices, handleMessage, the responses
--   ModuleHandler            source/bringauto/modules/ModuleHandler.cpp: handleStatus,
--                            handleDisconnect, handleConnect, handleCommandForward; in Timeouted and
--                            Loops checkTimeoutedMessages, in Dispatch and Loops the rounds of
--                            handleMessages and handleCommandForwards, and destroy
--   ExternalClient/ErrorAggregator
--                            source/bringauto/external_client/ErrorAggregator.cpp
--   ExternalClient/SentMessages
--                            source/bringauto/external_client/connection/messages
--   ExternalClient/Connection
--                            source/bringauto/external_client/connection/ExternalConnection.cpp:
--                            Sequence has the connect sequence, Commands the receiving loop
--   ExternalClient/Client    source/bringauto/external_client/ExternalClient.cpp: ConnectSequence
--                            has startExternalConnectSequence and handleAggregatedMessages
--   Settings                 source/bringauto/settings/SettingsParser.cpp and
--                            source/bringauto/common_utils/EnumUtils.cpp
--   ExternalClient/Mqtt      source/bringauto/external_client/connection/communication/
--                            MqttCommunication.cpp
--   ExternalClient/Quic      QuicCommunication.cpp beside it: Queues has the two queues, Streams the
--                            streams and their send buffers, Handles the handles of MsQuic
--   ExternalClient/Dummy     DummyCommunication.cpp beside it
--   Settings/QuicSettings    source/bringauto/settings/QuicSettingsParser.cpp
--   ModuleLibrary            source/bringauto/structures/ModuleLibrary.cpp; in Local and Async
--                            source/bringauto/modules/ModuleManagerLibraryHandlerLocal.cpp and
--                            ModuleManagerLibraryHandlerAsync.cpp
--   Gateway                  main.cpp: the server and the module handler with the two queues
--                            that join them
--   Tests                    sample values, and the theorems applied to them
--
-- An operation of the model has the name of the method in snake case. It takes the state and
-- returns the new one with its result; a method that holds a mutex throughout is one step. A call
-- that may throw returns an Outcome. The functions of a module's library, which is no part of the
-- repository, are the fields of the record ModuleLibraryHandler. The protobuf messages, which are
-- generated, are records of the fields that the gateway reads, and protobuf's parser is the
-- argument `parse`. Time is an argument, in seconds, and an event of the io context (a timer, a
-- posted handler, a receive) is a call of its own, so that a run is any order of them.
-- StatusAggregator.Calls, InternalServer.Connections.System and ExternalClient.SentMessages.Ending
-- are these runs. The status aggregator locks each of its methods by itself: handleStatus is given
-- the calls that other threads make of it in between (the record Others of ModuleHandler). The
-- other handlers of the ModuleHandler run without calls in between, and Gateway has handleStatus
-- without them too. The library of a module is one that throws nothing and allocates what it
-- answers OK.
--
-- Numbers are natural numbers. In the framing a header is four bytes, read as an unsigned number
-- of 32 bits, least significant byte first, and `size_sub` is subtraction of 64 bits. The
-- recursion of processBufferData runs on fuel, `none` where it runs out; more fuel than bytes
-- received is enough, since each round takes at least one byte. The drain of a device's messages
-- in checkTimeoutedMessages runs on fuel too, for which one more than the number of messages is
-- enough.
--
-- A connection to an external server talks through a channel, the interface ICommunicationChannel.
-- The record Channel has what the channel answers to the calls to come: the messages it will
-- receive, the results of sendMessage and initializeConnection; and what was sent. MQTT is such a
-- channel. The random session id is an argument. In the external client a connection is named by
-- its position. A loop that waits for the queue runs over rounds, each with what arrives before it
-- looks, and the end of the rounds is a stopped io context; a connection's pushes to the shared
-- queues are collected from it. While a connection is made on its own thread, the queue is
-- drained; the model takes these statuses before the messages of the connect sequence, and
-- Connection/ConnectedDevices/Losing has one that is taken after them. The configuration file
-- stands as the record of the values that the parser takes from it, and the JSON library, the
-- conversions of numbers and letters, the file system and the regular expression for names are
-- parameters.
--
-- Not modelled: of the QUIC transport the contents of the configuration and of the credential;
-- MsQuic's results and events are arguments. A module stands in one table with its library and its
-- aggregator. Numbers of modules are not negative. Logging and text conversions are left out
-- everywhere.
pub mod Common
pub mod Structures
pub mod StatusAggregator
pub mod InternalServer
pub mod ModuleHandler
pub mod ExternalClient
pub mod Settings
pub mod ModuleLibrary
pub mod Gateway
pub mod Tests
