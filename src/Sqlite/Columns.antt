-- ===== src/Sqlite/Columns.antt =====
-- `find_result_field_types` of drivers/sqlite/dbd_sqlite.c and the part of `dbd_query` that gives the
-- columns of a result their types. What sqlite answers to the queries of sqlite_master and
-- sqlite_temp_master is a parameter.
pub mod Found
use libdbi_drivers.Prelude.{
  ℕ, Bool, true, false, ◌||◌, ◌&&◌, not, Option, none, some, List, [], ◌∷◌, ◌++◌, map, ◌==◌, ltb,
  if◌then◌else◌, Bytes, codes, length,
}
use libdbi_drivers.CString.{equal, split_at, strstr_parts, take_while, to_upper}
use libdbi_drivers.Dbi.{Field}
use libdbi_drivers.Dbi.Sized.{field}
use libdbi_drivers.Sqlite.CreateTable.{
  Fetched, outside, absent, fetched, skip_spaces, get_field_type,
}
use libdbi_drivers.Sqlite.Declared.{sqlite_type_of_declaration, type_of_call}
use libdbi_drivers.Sqlite.Types.{_translate_sqlite_type}
use libdbi_drivers.Sqlite3.Types.{FieldKind, decimal_kind, long_kind, string_kind}

abbrev pub max_ident_length : ℕ
max_ident_length = 128

-- A name fits a buffer of the function, with the zero behind it.
abbrev pub fits : Bytes → Bool
fits s = ltb (length s) max_ident_length

-- What stands before " from ", or else " FROM ", and what stands behind it.
abbrev behind_keyword : Option (Bytes × Bytes) → Option (Bytes × Bytes)
behind_keyword (some (before, a ∷ b ∷ c ∷ d ∷ e ∷ f ∷ behind)) = some (before, behind)
behind_keyword _ = none

unfoldable pub find_from : Bytes → Option (Bytes × Bytes)
unfolding strstr_parts
find_from statement = elim (strstr_parts statement (codes " from ")) [
  | some parts ↦ behind_keyword (some parts)
  | none ↦ behind_keyword (strstr_parts statement (codes " FROM "))
]

abbrev pub ends_word : ℕ → Bool
ends_word c = c == b' ' || c == b','

-- The text without a dot at its end; `none` if it does not end so.
unfoldable pub without_dot : Bytes → Option Bytes
without_dot [] = none
without_dot (c ∷ []) = if c == b'.' then some [] else none
without_dot (c ∷ d ∷ s) = elim (without_dot (d ∷ s)) [ none ↦ none | some s' ↦ some (c ∷ s') ]

-- What follows the last space or comma; `word` is what was read since then.
unfoldable pub last_word : Bytes → Bytes → Bytes
last_word word [] = word
last_word word (c ∷ s) = elim (ends_word c) [
  | true ↦ last_word [] s
  | false ↦ last_word (word ++ c ∷ []) s
]

-- The table in front of the field name, in the part of the statement before " from "; `none` if no dot
-- stands before the first place where the name is.
unfoldable pub table_in_front : Bytes → Bytes → Option Bytes
unfolding strstr_parts without_dot last_word
table_in_front my_statement field = elim (strstr_parts my_statement field) [
  | none ↦ none
  | some (before, []) ↦ none
  | some (before, c ∷ s) ↦ elim (without_dot before) [
    | none ↦ none
    | some text ↦ some (if ends_word c then s else last_word [] text)
  ]
]

abbrev pub in_name : ℕ → Bool
in_name c = not (c == b' ' || c == b',' || c == b';')

-- The first table behind " from ".
unfoldable pub first_table : Bytes → Bytes
unfolding take_while skip_spaces
first_table behind = take_while in_name (skip_spaces behind)

abbrev pub is_internal : Bytes → Bool
is_internal table = equal table (codes "sqlite_master") || equal table (codes "sqlite_temp_master")

-- The kind of a type that was found, and 0 without one; `none` is an access outside of a string.
abbrev pub kind_of_fetched : Fetched → Option FieldKind
kind_of_fetched outside = none
kind_of_fetched absent = some decimal_kind
kind_of_fetched (fetched type) = some (sqlite_type_of_declaration type)

-- The CREATE TABLE statements that the two internal tables hold for a name.
module _ (master temp_master : Bytes → Option Bytes) where
  abbrev pub create_statement : Bytes → Option Bytes
  create_statement table = elim (master table) [ some sql ↦ some sql | none ↦ temp_master table ]

  abbrev pub type_in_statement : Option Bytes → Bytes → Option FieldKind
  type_in_statement none name = some decimal_kind
  type_in_statement (some sql) name = elim (get_field_type sql name) [
    | none ↦ none
    | some f ↦ kind_of_fetched f
  ]

  -- The second half of the function. `none` is a name too long for its buffer.
  unfoldable pub type_of_column : Bytes → Bytes → Option FieldKind
  unfolding type_of_call get_field_type sqlite_type_of_declaration
  type_of_column curr_table curr_field_name =
      if fits curr_table && fits curr_field_name
      then elim (type_of_call (map to_upper curr_field_name)) [
        | some kind ↦ some kind
        | none ↦ type_in_statement (create_statement curr_table) curr_field_name
      ]
      else none

  -- A field name without a table, and the parts of the statement around " from ".
  unfoldable pub type_of_unqualified : Bytes → Option (Bytes × Bytes) → Option FieldKind
  unfolding table_in_front first_table type_of_column equal
  type_of_unqualified field none = some decimal_kind
  type_of_unqualified field (some (my_statement, behind)) =
      elim (table_in_front my_statement field) [
        | some table ↦ type_of_column table field
        | none ↦
            if is_internal (first_table behind)
            then some (if equal field (codes "rootpage") then long_kind else string_kind)
            else type_of_column (first_table behind) field
      ]

  unfoldable pub find_result_field_types : Bytes → Bytes → Option FieldKind
  unfolding split_at find_from type_of_unqualified type_of_column
  find_result_field_types field statement = elim (split_at b'.' field) [
    | some (table, name) ↦ type_of_column table name
    | none ↦ type_of_unqualified field (find_from statement)
  ]

  -- The name of a column without the table's.
  unfoldable pub column_name : Bytes → Bytes
  unfolding split_at
  column_name column = elim (split_at b'.' column) [ none ↦ column | some (table, name) ↦ name ]

  -- The loop of `dbd_query` over the columns of a result.
  unfoldable pub result_fields : Bytes → List Bytes → Option (List Field)
  unfolding find_result_field_types column_name _translate_sqlite_type
  result_fields statement [] = some []
  result_fields statement (column ∷ columns) =
      let rest = result_fields statement columns in
      elim (find_result_field_types column statement) [
        | none ↦ none
        | some kind ↦ elim rest [
          | none ↦ none
          | some fields ↦ some (field (column_name column) (_translate_sqlite_type kind) ∷ fields)
        ]
      ]
