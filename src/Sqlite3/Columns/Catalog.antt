-- ===== src/Sqlite3/Columns/Catalog.antt =====
-- The look-up of a column in a database whose tables are given: what SQLite answers to the pragma
-- table_info is determined by the columns of each table.
use libdbi_drivers.Prelude.{ℕ, Option, none, some, List, [], ◌∷◌, ◌++◌, ◌≡◌, refl, Bytes, length}
use libdbi_drivers.Sqlite3.Columns.{
  Table, TableInfo, type_in_table, type_in_tables, classified, look_up,
}
use libdbi_drivers.Sqlite3.Columns.Found.{Column, flat, declared, get_field_type_lem}
use libdbi_drivers.Sqlite3.Declared.{type_of_declaration}
use libdbi_drivers.Sqlite3.Tables.{listed, get_tables}
use libdbi_drivers.Sqlite3.Types.{FieldKind, string_kind}

-- The columns of each table of the database; `none` is a table that is not there.
abbrev pub Schema : Type 0
Schema = Bytes → Option (List Column)

-- What `sqlite3_get_table` answers: the row of names, the rows of the columns, and their number.
abbrev pub answer : Table → Option (List Column) → Option TableInfo
answer header none = none
answer header (some columns) = some (header ++ flat columns, length columns)

abbrev pub declared_in : Option (List Column) → Bytes → Option Bytes
declared_in none field = none
declared_in (some columns) field = declared columns field none

-- The declaration of the column in the first of the tables that has it.
abbrev pub first_declared : Schema → List Bytes → Bytes → Option Bytes
first_declared schema [] field = none
first_declared schema (t ∷ ts) field = elim (declared_in (schema t) field) [
  | some type ↦ some type
  | none ↦ first_declared schema ts field
]

-- The type of a declaration, and a string without one.
abbrev pub kind_of : Option Bytes → FieldKind
kind_of none = string_kind
kind_of (some type) = type_of_declaration type

module _ (header : Table) (six : length header ≡ 6) (schema : Schema)
    (table_info : Bytes → Option TableInfo)
    (answers : (t : Bytes) → table_info t ≡ answer header (schema t)) where
  in_answer :
      (o : Option (List Column)) (t field : Bytes)
      → table_info t ≡ answer header o
      → type_in_table table_info t field ≡ some (declared_in o field)
  unfolding type_in_table
  in_answer none t field e = rw (e, type_in_table) refl
  in_answer (some []) t field e = unfold declared in rw (e, type_in_table) refl
  in_answer (some (c ∷ cs)) t field e =
      rw (e, type_in_table) (get_field_type_lem header (c ∷ cs) field six)

  type_in_tables-first_declared :
      (tables : List Bytes) (field : Bytes)
      → type_in_tables table_info tables field ≡ some (first_declared schema tables field)
  unfolding type_in_tables
  type_in_tables-first_declared [] field = refl
  type_in_tables-first_declared (t ∷ ts) field =
      rw (type_in_tables, in_answer (schema t) t field (answers t), type_in_tables)
        (by_declared (declared_in (schema t) field) (type_in_tables-first_declared ts field))
    where
      by_declared :
          (o : Option Bytes)
          → type_in_tables table_info ts field ≡ some (first_declared schema ts field)
          → elim o [ some type ↦ some (some type) | none ↦ type_in_tables table_info ts field ]
            ≡ some (elim o [ some type ↦ some type | none ↦ first_declared schema ts field ])
      by_declared none e = e
      by_declared (some type) e = refl

  classified-some : (o : Option Bytes) → classified (some o) ≡ some (kind_of o)
  classified-some none = refl
  classified-some (some type) = refl

  pub look_up-kind_of :
      (statement : Bytes) (c : ℕ) (table field : Bytes) (tables : List Bytes)
      → get_tables statement ≡ listed tables
      → (look_up table_info statement (c ∷ table) field
          ≡ some (kind_of (declared_in (schema (c ∷ table)) field)))
        × (look_up table_info statement [] field
            ≡ some (kind_of (first_declared schema tables field)))
  unfolding look_up
  look_up-kind_of statement c table field tables found = (
    rw (in_answer (schema (c ∷ table)) (c ∷ table) field (answers (c ∷ table))) (classified-some _),
    rw (found, look_up, type_in_tables-first_declared tables field) (classified-some _),
  )
