-- ===== src/Gnss.antt =====
-- Modules/GNSSModule: the position of the gateway.
pub mod State
pub mod Position
pub mod Retrieve
pub mod Graph
pub mod Fix
pub mod Timestamp
pub mod Answers
mod Tests
