-- ===== src/Sqlite3/Query.antt =====
-- `dbd_query` of drivers/sqlite3/dbd_sqlite3.c, with `dbd_query_old`, which differs from it in memory that it
-- gives back, and `dbd_list_tables`. SQLite and the connection that `dbd_list_tables` makes for itself
-- are parameters.
pub mod Fields
pub mod Listing
use libdbi_drivers.Prelude.{
  ℕ, Bool, true, false, Option, none, some, List, [], ◌∷◌, ◌++◌, map, if◌then◌else◌, Bytes, codes,
}
use libdbi_drivers.CString.{split_at}
use libdbi_drivers.Dbi.{Field}
use libdbi_drivers.Dbi.Sized.{field}
use libdbi_drivers.Sqlite3.Columns.{TableInfo, find_result_field_types}
use libdbi_drivers.Sqlite3.Types.{_translate_sqlite3_type}

-- What `sqlite3_get_table` hands out for a statement that succeeds: the names of the columns, the number of
-- rows, and what `sqlite3_changes` says then.
pub record Answer : Type 0 where
  pub columns : List Bytes
  pub numrows : ℕ
  pub changes : ℕ

pub record QueryResult : Type 0 where
  pub numrows_matched : ℕ
  pub numrows_affected : ℕ
  pub fields : List Field

-- The name of a column without the table's.
unfoldable pub item_name : Bytes → Bytes
unfolding split_at
item_name column = elim (split_at b'.' column) [ none ↦ column | some (table, name) ↦ name ]

-- The outcome of `dbd_query`: a null pointer, or a result. `undefined` is a read outside of a text in the
-- search for the type of a column.
pub data Outcome : Type 0 where
  failed undefined : Outcome
  returned : QueryResult → Outcome

module _ (table_info : Bytes → Option TableInfo) where
  -- The loop over the columns.
  unfoldable pub result_fields : Bytes → List Bytes → Option (List Field)
  unfolding find_result_field_types item_name _translate_sqlite3_type
  result_fields statement [] = some []
  result_fields statement (column ∷ columns) =
      let rest = result_fields statement columns in
      elim (find_result_field_types table_info column statement) [
        | none ↦ none
        | some kind ↦ elim rest [
          | none ↦ none
          | some fields ↦ some (field (item_name column) (_translate_sqlite3_type kind) ∷ fields)
        ]
      ]

  abbrev pub with_fields : Answer → Option (List Field) → Outcome
  with_fields answer none = undefined
  with_fields answer (some fields) = returned (record {
    numrows_matched = answer.numrows;
    numrows_affected = answer.changes;
    fields = fields;
  })

  unfoldable pub dbd_query : (Bytes → Option Answer) → Bytes → Outcome
  unfolding result_fields
  dbd_query get_table statement = elim (get_table statement) [
    | none ↦ failed
    | some answer ↦ with_fields answer (result_fields statement answer.columns)
  ]

-- The statement that is run on the other database.
abbrev pub name_query : Option Bytes → Bytes
name_query none = codes "SELECT name FROM sqlite_master WHERE type='table' ORDER BY name"
name_query (some pattern) =
    codes "SELECT name FROM sqlite_master WHERE type='table' AND name LIKE '"
    ++ (pattern ++ codes "' ORDER BY name")

abbrev pub insertion : Bytes → Bytes
insertion name = codes "INSERT INTO libdbi_tablenames VALUES ('" ++ (name ++ codes "')")

abbrev pub insertions : Option (List Bytes) → List Bytes
insertions none = []
insertions (some names) = map insertion names

-- The statements that `dbd_list_tables` runs on the connection, by whether the other database can be
-- opened; `names` is what that one answers to a query.
unfoldable pub dbd_list_tables : Bool → (Bytes → Option (List Bytes)) → Option Bytes → List Bytes
dbd_list_tables false names pattern = []
dbd_list_tables true names pattern =
    codes "DROP TABLE libdbi_tablenames"
    ∷ codes "CREATE TEMPORARY TABLE libdbi_tablenames (tablename VARCHAR(255))"
    ∷ (insertions (names (name_query pattern))
        ++ codes "SELECT tablename FROM libdbi_tablenames ORDER BY tablename" ∷ [])
