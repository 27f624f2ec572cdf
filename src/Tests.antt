-- ===== src/Tests.antt =====
-- The theorems at concrete inputs, and runs of the definitions.
mod Sample
mod Sqlite3
mod Sqlite3Types
mod Quoting
mod Encodings
mod Rows
mod Connection
mod Dates
mod Fetched
mod Queries
mod Opening
mod SqliteTypes
mod Firebird
mod Sessions
mod Results
mod Handles
