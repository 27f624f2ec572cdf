-- ===== src/Sqlite/Declared.antt =====
-- The field types that `find_result_field_types` of drivers/sqlite/dbd_sqlite.c derives from a declared
-- column type and from a name that is a function call.
pub mod Blobs
use libdbi_drivers.Prelude.{ℕ, Option, none, some, [], ◌∷◌, map, if◌then◌else◌, Bytes, codes}
use libdbi_drivers.CString.{to_upper}
use libdbi_drivers.Sqlite3.Declared.{contains_any}
use libdbi_drivers.Sqlite3.Types.{
  FieldKind, decimal_kind, tiny, short_kind, long_kind, float_kind, double_kind, timestamp,
  longlong, int24, date_kind, time_kind, blob, string_kind,
}

-- The `if` chain over `curr_type`, which is in upper case.
unfoldable pub sqlite_type_of_upper : Bytes → FieldKind
unfolding contains_any
sqlite_type_of_upper s =
    if contains_any s (codes "BLOB" ∷ codes "BYTEA" ∷ [])
    then blob
    else if contains_any s (
        codes "CHAR("
        ∷ codes "CLOB"
        ∷ codes "TEXT"
        ∷ codes "VARCHAR"
        ∷ codes "ENUM"
        ∷ codes "SET"
        ∷ codes "YEAR"
        ∷ [])
    then string_kind
    else if contains_any s (codes "CHAR" ∷ codes "TINYINT" ∷ codes "INT1" ∷ [])
    then tiny
    else if contains_any s (codes "SMALLINT" ∷ codes "INT2" ∷ [])
    then short_kind
    else if contains_any s (codes "MEDIUMINT" ∷ [])
    then int24
    else if contains_any s (codes "BIGINT" ∷ codes "INT8" ∷ [])
    then longlong
    else if contains_any s (codes "INTEGER" ∷ codes "INT" ∷ codes "INT4" ∷ [])
    then long_kind
    else if contains_any s (codes "DECIMAL" ∷ codes "NUMERIC" ∷ [])
    then decimal_kind
    else if contains_any s (codes "TIMESTAMP" ∷ codes "DATETIME" ∷ [])
    then timestamp
    else if contains_any s (codes "DATE" ∷ [])
    then date_kind
    else if contains_any s (codes "TIME" ∷ [])
    then time_kind
    else if contains_any s (codes "DOUBLE" ∷ codes "FLOAT8" ∷ [])
    then double_kind
    else if contains_any s (codes "REAL" ∷ codes "FLOAT" ∷ codes "FLOAT4" ∷ [])
    then float_kind
    else string_kind

-- The end of the function: `curr_type` is put into upper case and classified.
unfoldable pub sqlite_type_of_declaration : Bytes → FieldKind
unfolding sqlite_type_of_upper
sqlite_type_of_declaration curr_type = sqlite_type_of_upper (map to_upper curr_type)

-- The names that are taken for function calls, in upper case; `none` is a name that is looked up.
unfoldable pub type_of_call : Bytes → Option FieldKind
unfolding contains_any
type_of_call s =
    if contains_any s (
      codes "ABS("
      ∷ codes "LAST_INSERT_ROWID("
      ∷ codes "LENGTH("
      ∷ codes "MAX("
      ∷ codes "MIN("
      ∷ codes "RANDOM(*)"
      ∷ codes "ROUND("
      ∷ codes "AVG("
      ∷ codes "COUNT("
      ∷ codes "SUM("
      ∷ [])
    then some long_kind
    else if contains_any s (
        codes "COALESCE("
        ∷ codes "GLOB("
        ∷ codes "LIKE("
        ∷ codes "LOWER("
        ∷ codes "SUBSTR("
        ∷ codes "UPPER("
        ∷ [])
    then some string_kind
    else none
