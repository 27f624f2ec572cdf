-- ===== src/Ingres.antt =====
-- The Ingres driver, drivers/ingres.
pub mod Quote
pub mod Types
pub mod Months
pub mod Date
pub mod Rows
pub mod Query
pub mod Connection
