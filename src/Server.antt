-- ===== src/Server.antt =====
-- What a broker runs beside its requests: server/.
pub mod Registry
pub mod Isr
pub mod Replica
mod Tests
