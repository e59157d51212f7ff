-- ===== src/Release.antt =====
-- The decisions of the release workflow.
pub mod Ci
pub mod Gate
pub mod Title
pub mod Version
mod Tests
