-- ===== src/Power.antt =====
-- Modules/PowerManager: the manager of the modem's power and its four states.
pub mod State
pub mod On
pub mod Off
pub mod ManualOff
pub mod Sleep
pub mod Manager
pub mod Graph
pub mod Shutdown
pub mod Commands
mod Tests
