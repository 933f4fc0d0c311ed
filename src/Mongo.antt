-- ===== src/Mongo.antt =====
-- The MongoDB driver that storage/database_manager_base.cpp calls: what a document, a query and an
-- aggregation pipeline are, and the driver as a record of operations with their documented behaviour.
-- The driver itself is a third-party library, so it is a parameter of the development.
pub mod Document
pub mod Query
pub mod Pipeline
pub mod Driver
pub mod Encoded
pub mod Steps
pub mod Memory
