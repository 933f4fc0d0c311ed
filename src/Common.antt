-- ===== src/Common.antt =====
-- common/: the shared types and helpers.
pub mod Types
pub mod Outcome
pub mod Persistence
