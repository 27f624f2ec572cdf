-- ===== src/Sqlite/Wildcard.antt =====
-- `wild_case_compare` of drivers/sqlite/dbd_sqlite.c and its use in `dbd_list_dbs`. The function is that
-- of drivers/sqlite3/dbd_sqlite3.c but for its white space.
use libdbi_drivers.Prelude.{ℕ, Bytes}
use libdbi_drivers.Sqlite3.Wildcard as Sqlite3Wildcard
use libdbi_drivers.Sqlite3.Wildcard.{Verdict, found, not_here, not_any}

unfoldable pub wild_case_compare : Bytes → Bytes → ℕ → Verdict
unfolding Sqlite3Wildcard.wild_case_compare
wild_case_compare str wildstr escape = Sqlite3Wildcard.wild_case_compare str wildstr escape
