-- ===== src/Oracle.antt =====
-- The Oracle driver, drivers/oracle.
pub mod Quote
pub mod Literal
pub mod Types
pub mod Rows
pub mod Encoding
pub mod Session
