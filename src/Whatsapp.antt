-- ===== src/Whatsapp.antt =====
-- The package whatsapp: the types and rules that the other packages share.
pub mod Booleans
pub mod Options
pub mod ConnectionState
pub mod Endpoint
pub mod Message
