-- ===== src/Sqlite3/Declared.antt =====
-- The field types that `find_result_field_types` of drivers/sqlite3/dbd_sqlite3.c derives from a declared
-- column type and from the name of an SQL function.
use libdbi_drivers.Prelude.{Bool, false, ◌||◌, List, [], ◌∷◌, map, if◌then◌else◌, Bytes, codes}
use libdbi_drivers.CString.{contains, to_lower, to_upper}
use libdbi_drivers.Sqlite3.Types.{
  FieldKind, decimal_kind, tiny, short_kind, long_kind, float_kind, double_kind, timestamp,
  longlong, int24, date_kind, time_kind, blob, string_kind,
}

-- A chain of `strstr` calls joined by `||`.
unfoldable pub contains_any : Bytes → List Bytes → Bool
unfolding contains
contains_any s [] = false
contains_any s (needle ∷ needles) = contains s needle || contains_any s needles

-- The `if` chain over `curr_type`, which is in upper case.
unfoldable pub type_of_upper : Bytes → FieldKind
unfolding contains_any
type_of_upper s =
    if contains_any s (
      codes "CHAR("
      ∷ codes "CLOB"
      ∷ codes "TEXT"
      ∷ codes "VARCHAR"
      ∷ codes "ENUM"
      ∷ codes "SET"
      ∷ codes "YEAR"
      ∷ [])
    then string_kind
    else if contains_any s (codes "BLOB" ∷ codes "BYTEA" ∷ [])
    then blob
    else if contains_any s (codes "CHAR" ∷ codes "TINYINT" ∷ codes "INT1" ∷ [])
    then tiny
    else if contains_any s (codes "SMALLINT" ∷ codes "INT2" ∷ [])
    then short_kind
    else if contains_any s (codes "MEDIUMINT" ∷ [])
    then int24
    else if contains_any s (codes "BIGINT" ∷ codes "INTEGER PRIMARY KEY" ∷ codes "INT8" ∷ [])
    then longlong
    else if contains_any s (codes "INTEGER" ∷ codes "INT" ∷ codes "INT4" ∷ [])
    then long_kind
    else if contains_any s (codes "DECIMAL" ∷ codes "NUMERIC" ∷ [])
    then decimal_kind
    else if contains_any s (codes "TIMESTAMP" ∷ codes "DATETIME" ∷ [])
    then timestamp
    else if contains_any s (codes "DATE" ∷ [])
    then date_kind
    else if contains_any s (codes "TIME" ∷ [])
    then time_kind
    else if contains_any s (codes "DOUBLE" ∷ codes "FLOAT8" ∷ [])
    then double_kind
    else if contains_any s (codes "REAL" ∷ codes "FLOAT" ∷ codes "FLOAT4" ∷ [])
    then float_kind
    else string_kind

-- The end of the function: `curr_type` is put into upper case and classified.
unfoldable pub type_of_declaration : Bytes → FieldKind
unfolding type_of_upper
type_of_declaration curr_type = type_of_upper (map to_upper curr_type)

-- The `if` chain over `curr_field_lower`.
unfoldable pub type_of_lower : Bytes → FieldKind
unfolding contains_any
type_of_lower s =
    if contains_any s
      (codes "avg(" ∷ codes "sum(" ∷ codes "total(" ∷ codes "abs(" ∷ codes "round(" ∷ [])
    then float_kind
    else if contains_any s (
        codes "julianday("
        ∷ codes "count("
        ∷ codes "max("
        ∷ codes "min("
        ∷ codes "last_insert_rowid("
        ∷ codes "length("
        ∷ [])
    then long_kind
    else if contains_any s (codes "random(" ∷ [])
    then longlong
    else if contains_any s (
        codes "randomblob("
        ∷ codes "zeroblob("
        ∷ codes "total("
        ∷ codes "abs("
        ∷ codes "round("
        ∷ [])
    then blob
    else if contains_any s (
        codes "date("
        ∷ codes "time("
        ∷ codes "datetime("
        ∷ codes "strftime("
        ∷ codes "group_concat("
        ∷ codes "coalesce("
        ∷ codes "glob("
        ∷ codes "ifnull("
        ∷ codes "hex("
        ∷ codes "like("
        ∷ codes "lower("
        ∷ codes "ltrim("
        ∷ codes "nullif("
        ∷ codes "quote("
        ∷ codes "replace("
        ∷ codes "rtrim("
        ∷ codes "sqlite_version("
        ∷ codes "substr("
        ∷ codes "trim("
        ∷ codes "typeof("
        ∷ codes "upper("
        ∷ [])
    then string_kind
    else string_kind

unfoldable pub type_of_function : Bytes → FieldKind
unfolding type_of_lower
type_of_function itemstore = type_of_lower (map to_lower itemstore)
