-- ===== src/Gateway.antt =====
-- Modules/Gateway: the states of the gateway.
pub mod Show
pub mod Decimal
pub mod Ack
pub mod Chunks
pub mod Due
pub mod Acknowledgement
pub mod Waiting
pub mod Reassembly
pub mod Delivery
mod Tests
