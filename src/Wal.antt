-- ===== src/Wal.antt =====
-- system/wal.{h,cpp}: the write-ahead logger. It works over the interface `PersistenceService`, which
-- system/system_environment_facade.cpp implements (module Environment).
pub mod Service
pub mod Journal
pub mod Logger
pub mod History
pub mod Interrupted
pub mod Keys
pub mod Processes
pub mod Cleaning
