-- ===== src/Freetds.antt =====
-- The FreeTDS driver, drivers/freetds.
pub mod Quote
pub mod Types
pub mod Encoding
pub mod Version
pub mod Query
pub mod Rows
pub mod Connection
