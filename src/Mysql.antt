-- ===== src/Mysql.antt =====
-- The MySQL driver, drivers/mysql.
pub mod Encoding
pub mod Types
pub mod Rows
pub mod Charset
pub mod Client
pub mod Connection
