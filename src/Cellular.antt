-- ===== src/Cellular.antt =====
-- Modules/CellularModule: the mobile network module.
pub mod Responses
pub mod Module
pub mod Connection
pub mod Connect
pub mod Order
pub mod Bounded
pub mod Gates
pub mod Tests
