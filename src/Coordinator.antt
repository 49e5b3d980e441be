-- ===== src/Coordinator.antt =====
-- The coordinator's state: coordinator/.
pub mod Idempotence
pub mod Purgatory
pub mod Partition
pub mod Pid
pub mod Group
pub mod GroupStore
pub mod Snapshot
mod Tests
