-- ===== src/Messages.antt =====
-- Modules/MessageHandler: the chain of handlers that messages over LoRa go through.
pub mod Base
pub mod Memory
pub mod Hex
pub mod Checksum
pub mod Authentication
pub mod Encryption
pub mod Chain
pub mod Appended
pub mod Sender
pub mod Receiver
pub mod RoundTrip
pub mod Acceptance
pub mod Simple
mod Tests
