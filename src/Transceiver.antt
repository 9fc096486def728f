-- ===== src/Transceiver.antt =====
-- Modules/CellularModule/TransceiverState: a message is posted to the server, its answer read.
pub mod State
pub mod Configure
pub mod Post
pub mod Exchange
pub mod Closing
pub mod Ending
pub mod Sample
mod Tests
pub mod Success
pub mod Answer
pub mod Commands
