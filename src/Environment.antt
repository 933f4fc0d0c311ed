-- ===== src/Environment.antt =====
-- system/system_environment_facade.cpp: SystemEnvironmentFacade as the persistence service of the
-- write-ahead log, over the database.
pub mod Persistence
pub mod Operations
pub mod Events
pub mod Registrations
pub mod Journal
pub mod Starting
