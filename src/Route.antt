-- ===== src/Route.antt =====
-- Modules/Gateway: the states of the gateway, and its update.
pub mod States
pub mod Consistent
pub mod Kind
mod Tests
