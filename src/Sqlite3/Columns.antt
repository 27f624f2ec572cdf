-- ===== src/Sqlite3/Columns.antt =====
-- The second half of `find_result_field_types` of drivers/sqlite3/dbd_sqlite3.c, which looks the column up
-- in the tables of the statement, and `get_field_type`.
pub mod Found
pub mod Catalog
use libdbi_drivers.Prelude.{
  ℕ, zero, suc, ◌+◌, true, false, Option, none, some, List, [], ◌∷◌, if◌then◌else◌, Bytes,
  get_elem?,
}
use libdbi_drivers.CString.{equal, split_at}
use libdbi_drivers.Sqlite3.Declared.{type_of_declaration}
use libdbi_drivers.Sqlite3.Select.{Resolved, answered, column, undefined, resolve}
use libdbi_drivers.Sqlite3.Tables.{Parsed, listed, overrun, out_of_fuel, get_tables}
use libdbi_drivers.Sqlite3.Types.{FieldKind, string_kind}

-- The array that `sqlite3_get_table` allocates: column names and rows, `none` for a null pointer.
abbrev pub Table : Type 0
Table = List (Option Bytes)

-- The loop of `get_field_type` from the index `i` on, for `left` more rows. `none` is a read behind the
-- end of the array or through a null pointer.
unfoldable pub type_in_rows : Table → Bytes → ℕ → ℕ → Option Bytes → Option (Option Bytes)
type_in_rows table field i zero curr_type = some curr_type
type_in_rows table field i (suc left) curr_type = elim (get_elem? table (i + 1)) [
  | none ↦ none
  | some none ↦ none
  | some (some name) ↦ elim (equal name field) [
    | false ↦ type_in_rows table field (i + 6) left curr_type
    | true ↦ elim (get_elem? table (i + 2)) [
      | none ↦ none
      | some none ↦ none
      | some (some type) ↦ type_in_rows table field (i + 6) left (some type)
    ]
  ]
]

unfoldable pub get_field_type : Table → Bytes → ℕ → Option (Option Bytes)
unfolding type_in_rows
get_field_type table curr_field_name numrows = type_in_rows table curr_field_name 6 numrows none

-- A result of the pragma table_info: the array and the number of rows.
abbrev pub TableInfo : Type 0
TableInfo = Table × ℕ

-- The type of a column in a table; `table_info` gives `none` for an error of `sqlite3_get_table`, and
-- a table without rows is treated likewise.
unfoldable pub type_in_table : (Bytes → Option TableInfo) → Bytes → Bytes → Option (Option Bytes)
unfolding get_field_type
type_in_table table_info table field = elim (table_info table) [
  | none ↦ some none
  | some (rows, zero) ↦ some none
  | some (rows, suc n) ↦ get_field_type rows field (suc n)
]

-- The search through the list of tables, up to the first that has the column.
unfoldable pub type_in_tables :
    (Bytes → Option TableInfo) → List Bytes → Bytes → Option (Option Bytes)
unfolding type_in_table
type_in_tables table_info [] field = some none
type_in_tables table_info (table ∷ tables) field = elim (type_in_table table_info table field) [
  | none ↦ none
  | some (some type) ↦ some (some type)
  | some none ↦ type_in_tables table_info tables field
]

-- What is made of a column's declaration: without one, the type is a string.
abbrev pub classified : Option (Option Bytes) → Option FieldKind
classified none = none
classified (some none) = some string_kind
classified (some (some type)) = some (type_of_declaration type)

-- The column `field` of the table that the field's name gives, or of the statement's tables.
unfoldable pub look_up : (Bytes → Option TableInfo) → Bytes → Bytes → Bytes → Option FieldKind
unfolding type_in_table type_in_tables
look_up table_info statement [] field = elim (get_tables statement) [
  | listed tables ↦ classified (type_in_tables table_info tables field)
  | overrun ↦ none
  | out_of_fuel ↦ none
]
look_up table_info statement (c ∷ table) field =
    classified (type_in_table table_info (c ∷ table) field)

-- `curr_table` and `curr_field`, from the name of a result's field.
unfoldable pub split_field : Bytes → Bytes × Bytes
unfolding split_at
split_field field = elim (split_at b'.' field) [ none ↦ ([], field) | some pair ↦ pair ]

unfoldable pub find_result_field_types :
    (Bytes → Option TableInfo) → Bytes → Bytes → Option FieldKind
unfolding split_field look_up
find_result_field_types table_info field statement =
    elim (resolve (split_field field).1 statement) [
      | answered kind ↦ some kind
      | column name ↦ look_up table_info statement (split_field field).0 name
      | undefined ↦ none
    ]
