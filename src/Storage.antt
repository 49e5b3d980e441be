-- ===== src/Storage.antt =====
-- The log on disk: storage/commitlog/.
pub mod Search
pub mod Segments
pub mod Index
pub mod Clip
pub mod Region
pub mod Recovery
pub mod TimeIndex
pub mod Log
mod Tests
