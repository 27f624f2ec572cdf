-- ===== src/Sqlite.antt =====
-- The driver for SQLite 2, drivers/sqlite.
pub mod Quote
pub mod Literal
pub mod Types
pub mod Declared
pub mod CreateTable
pub mod Columns
pub mod Rows
pub mod Wildcard
pub mod Databases
