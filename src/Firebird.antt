-- ===== src/Firebird.antt =====
-- The Firebird driver, drivers/firebird.
pub mod Quote
pub mod Encoding
pub mod Types
pub mod Attach
pub mod Version
pub mod Rows
pub mod Layout
pub mod Statement
pub mod Session
