-- ===== src/Database.antt =====
-- storage/database_manager_base.{h,cpp}: the state of DatabaseManagerBase is its collections; each
-- method takes the state and returns the new one with its result.
pub mod State
pub mod Operations
pub mod Events
pub mod Registrations
pub mod Descriptions
pub mod Metadata
pub mod Payload
pub mod Sessions
