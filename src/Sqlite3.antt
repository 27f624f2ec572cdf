-- ===== src/Sqlite3.antt =====
-- The SQLite3 driver, drivers/sqlite3.
pub mod Wildcard
pub mod Databases
pub mod Connect
pub mod Quote
pub mod Types
pub mod Rows
pub mod Declared
pub mod Select
pub mod Columns
pub mod Tables
pub mod Query
pub mod Session
