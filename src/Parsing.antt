-- ===== src/Parsing.antt =====
-- Modules/Gateway/Gateway.cpp: the messages of the trackers.
pub mod Message
pub mod Tracker
pub mod Located
mod Tests
