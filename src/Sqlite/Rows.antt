-- ===== src/Sqlite/Rows.antt =====
-- `_get_row_data` of drivers/sqlite/dbd_sqlite.c: line for line the one of drivers/sqlite3/dbd_sqlite3.c,
-- on the array of `sqlite_get_table`, which has the same layout.
use libdbi_drivers.Prelude.{ℕ, Option, List, Bytes}
use libdbi_drivers.Dbi.{Field, Cell, Libdbi}
use libdbi_drivers.Sqlite3.Rows as Sqlite3Rows

module _ (lib : Libdbi) where
  open lib use {Float, Time}

  unfoldable pub _get_row_data :
      List (Option Bytes) → List Field → ℕ → Option (List (Cell Float Time))
  unfolding Sqlite3Rows._get_row_data
  _get_row_data table fields rowidx = Sqlite3Rows._get_row_data lib table fields rowidx
