-- ===== src/Api.antt =====
-- The handlers of api/ on the state of the broker.
pub mod Context
pub mod Fetch
pub mod Samples
mod Tests
