-- ===== src/Msql.antt =====
-- The mSQL driver, drivers/msql.
pub mod Quote
pub mod Types
pub mod Rows
