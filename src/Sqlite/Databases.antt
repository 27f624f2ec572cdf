-- ===== src/Sqlite/Databases.antt =====
-- The loop of `dbd_list_dbs` in drivers/sqlite/dbd_sqlite.c: the one of the SQLite3 driver with another
-- magic text.
use libdbi_drivers.Prelude.{Bool, true, Option, List, Bytes, codes, ◌≡◌, arith}
use libdbi_drivers.Sqlite3.Databases.{Entry, listed}
use libdbi_drivers.Sqlite3.Databases.Matched.{IsAsciiPattern, matching, listed-matching}

abbrev pub sqlite_magic : Bytes
sqlite_magic = codes "** This file contains an SQLite 2.1 database **"

unfoldable pub sqlite_databases : (Bytes → Bool) → Option Bytes → List Entry → List Bytes
unfolding listed
sqlite_databases insert pattern entries = listed sqlite_magic insert pattern entries

-- If no INSERT fails and the pattern, if there is one, has only ASCII characters, the databases that are listed are the regular files that begin with the magic text
-- and whose names match the pattern by the rules of LIKE, in the order of the directory.
pub sqlite_databases-matching :
    (insert : Bytes → Bool) (pattern : Option Bytes) (entries : List Entry)
    → IsAsciiPattern pattern
    → ((name : Bytes) → insert name ≡ true)
    → sqlite_databases insert pattern entries ≡ matching sqlite_magic pattern entries
unfolding sqlite_databases
sqlite_databases-matching insert pattern entries low k =
    listed-matching sqlite_magic insert pattern entries (ground arith) low k
