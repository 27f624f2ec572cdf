-- ===== src/Sqlite3/Connect/Path.antt =====
-- The path of the database, and the timeout.
use libdbi_drivers.Prelude.{◌+◌, ◌≤◌, some, [], ◌∷◌, ◌≡◌, arith, Bytes, length, length-append}
use libdbi_drivers.Prelude.Int.{negsuc}
use libdbi_drivers.Sqlite3.Connect.{db_fullpath, busy_timeout}

-- The path and the zero behind it fit the block that is allocated for them.
pub length-db_fullpath :
    (dbdir dbname path : Bytes)
    → db_fullpath dbdir dbname ≡ some path
    → length path + 1 ≤ length dbname + length dbdir + 2
length-db_fullpath [] dbname path e = ground arith
length-db_fullpath (c ∷ dbdir) dbname path e =
    ground (arith, length-append (c ∷ dbdir) dbname, length-append (c ∷ dbdir) (b'/' ∷ dbname))

-- The generic timeout is a thousandfold of the option even where that is not set: the timeout is then
-- -1000 and not 0.
pub busy_timeout-unset : busy_timeout (negsuc 0) (negsuc 0) ≡ negsuc 999
unfolding busy_timeout
busy_timeout-unset = ground arith
