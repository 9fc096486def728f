-- ===== src/Exchanging.antt =====
-- Modules/Gateway/GatewayState/ExchangingMessages: a message is exchanged with the server.
pub mod Answer
pub mod State
pub mod Fields
pub mod Progress
pub mod ReadBack
mod Tests
