-- ===== src/Protocol.antt =====
-- The wire format: protocol/.
pub mod Outcome
pub mod Reader
pub mod Writer
pub mod Safety
pub mod Panics
pub mod Header
pub mod Heartbeat
pub mod Metadata
pub mod RoundTrip
mod Tests
