-- ===== src/Sqlite/Types/Copied.antt =====
-- The SQLite driver's translation of types against the SQLite3 driver's.
use libdbi_drivers.Prelude.{◌≡◌, refl}
use libdbi_drivers.Sqlite.Types.{_translate_sqlite_type}
use libdbi_drivers.Sqlite3.Types.{FieldKind, decimal_kind, _translate_sqlite3_type}

-- The two drivers give each field type the same type and attributes.
pub translate_sqlite-translate_sqlite3 :
    (kind : FieldKind) → _translate_sqlite_type kind ≡ _translate_sqlite3_type kind
unfolding _translate_sqlite_type _translate_sqlite3_type
translate_sqlite-translate_sqlite3 decimal_kind = refl
translate_sqlite-translate_sqlite3 _ = refl
