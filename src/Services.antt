-- ===== src/Services.antt =====
-- The services of backend/src/services that others call through a protocol.
pub mod SwapProtocol
pub mod Quotes
pub mod Orca
pub mod Serialization
