-- ===== src/Ethernet.antt =====
-- Modules/Gateway/GatewayState: the delivery of a message over Ethernet.
pub mod Sending
pub mod Delivery
mod Tests
