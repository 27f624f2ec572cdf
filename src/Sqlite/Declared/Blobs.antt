-- ===== src/Sqlite/Declared/Blobs.antt =====
-- The SQLite driver's types of declared columns against the SQLite3 driver's.
use libdbi_drivers.Prelude.{false, Bytes, codes, map, ◌≡◌, [], ◌∷◌, arith}
use libdbi_drivers.CString.{to_upper, contains}
use libdbi_drivers.Sqlite.Declared.{sqlite_type_of_declaration}
use libdbi_drivers.Sqlite3.Declared.{contains_any, type_of_declaration}

-- The two drivers classify a declaration alike that names neither BLOB nor BYTEA and is not an INTEGER
-- PRIMARY KEY.
pub sqlite_type_of_declaration_lem :
    (d : Bytes)
    → contains_any (map to_upper d) (codes "BLOB" ∷ codes "BYTEA" ∷ []) ≡ false
    → contains (map to_upper d) (codes "INTEGER PRIMARY KEY") ≡ false
    → sqlite_type_of_declaration d ≡ type_of_declaration d
unfolding sqlite_type_of_declaration type_of_declaration
sqlite_type_of_declaration_lem d h k = ground arith
