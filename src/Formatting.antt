-- ===== src/Formatting.antt =====
-- Modules/Gateway/GatewayState/FormattingMessage: the messages to the server.
pub mod MetaData
pub mod Sealed
pub mod Payload
mod Tests
