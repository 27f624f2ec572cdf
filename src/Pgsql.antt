-- ===== src/Pgsql.antt =====
-- The PostgreSQL driver, drivers/pgsql.
pub mod Encoding
pub mod Types
pub mod Rows
pub mod Version
pub mod Conninfo
pub mod Connection
