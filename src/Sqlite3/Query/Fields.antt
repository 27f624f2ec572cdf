-- ===== src/Sqlite3/Query/Fields.antt =====
-- The fields of a result whose columns are named with their tables.
use libdbi_drivers.Prelude.{
  ℕ, Option, none, some, List, [], ◌∷◌, ◌++◌, map, ◌≡◌, refl, Bytes, codes, length,
}
use libdbi_drivers.CString.Laws.{Lacks, split_at-Lacks}
use libdbi_drivers.Dbi.{Field}
use libdbi_drivers.Dbi.Sized.{field}
use libdbi_drivers.Sqlite3.Columns.{Table, TableInfo, split_field, find_result_field_types}
use libdbi_drivers.Sqlite3.Columns.Catalog.{Schema, answer, declared_in, kind_of, look_up-kind_of}
use libdbi_drivers.Sqlite3.Query.{Answer, returned, item_name, result_fields, dbd_query}
use libdbi_drivers.Sqlite3.Select.{column, strtok, resolve}
use libdbi_drivers.Sqlite3.Select.Alias.{NoSelect, AreItems, scan-AreItems}
use libdbi_drivers.Sqlite3.Tables.{listed, get_tables}
use libdbi_drivers.Sqlite3.Types.{_translate_sqlite3_type}

-- A column of a result: its table, by its first character and the rest, and its name.
pub record Qualified : Type 0 where
  pub first : ℕ
  pub rest : Bytes
  pub name : Bytes

abbrev pub table_of : Qualified → Bytes
table_of q = q.first ∷ q.rest

abbrev pub spelled : Qualified → Bytes
spelled q = table_of q ++ b'.' ∷ q.name

-- The words of a statement up to FROM, without their table names, are no AS and have no bracket, and no
-- word behind it is a select.
abbrev pub NoAliases : Bytes → Type 0
NoAliases statement =
    (before : List Bytes) × (tail : List Bytes) × (strtok [] statement
      ≡ before ++ codes "FROM" ∷ tail)
    × AreItems before
    × NoSelect tail

resolve-NoAliases :
    (field statement : Bytes) → NoAliases statement → resolve field statement ≡ column field
unfolding resolve
resolve-NoAliases field statement (before, tail, e, h, m) =
    rw e (scan-AreItems before tail none field h m)

-- No dot is in the name of the table.
abbrev pub AreColumns : List Qualified → Type 0
AreColumns [] = Unit {0}
AreColumns (q ∷ qs) = Lacks b'.' (table_of q) × AreColumns qs

-- The field of a column by the schema: its name, with the type that its table was created with.
abbrev pub schema_field : Schema → Qualified → Field
schema_field schema q =
    field q.name (_translate_sqlite3_type (kind_of (declared_in (schema (table_of q)) q.name)))

module _ (header : Table) (six : length header ≡ 6) (schema : Schema)
    (table_info : Bytes → Option TableInfo)
    (answers : (t : Bytes) → table_info t ≡ answer header (schema t)) (statement : Bytes)
    (tables : List Bytes) (found : get_tables statement ≡ listed tables)
    (plain : NoAliases statement) where
  split_field-spelled :
      (q : Qualified) → Lacks b'.' (table_of q) → split_field (spelled q) ≡ (table_of q, q.name)
  unfolding split_field
  split_field-spelled q l = rw (split_at-Lacks b'.' (table_of q) q.name l, split_field)

  find-kind_of :
      (q : Qualified)
      → Lacks b'.' (table_of q)
      → find_result_field_types table_info (spelled q) statement
        ≡ some (kind_of (declared_in (schema (table_of q)) q.name))
  unfolding find_result_field_types
  find-kind_of q l =
      rw (split_field-spelled q l, find_result_field_types)
        (rw (resolve-NoAliases q.name statement plain, find_result_field_types)
          (rw (split_field-spelled q l) (
            (look_up-kind_of header six schema table_info answers statement q.first q.rest q.name
              tables found).0)))

  item_name-spelled : (q : Qualified) → Lacks b'.' (table_of q) → item_name (spelled q) ≡ q.name
  unfolding item_name
  item_name-spelled q l = rw (split_at-Lacks b'.' (table_of q) q.name l, item_name)

  result_fields-map :
      (qs : List Qualified)
      → AreColumns qs
      → result_fields table_info statement (map spelled qs) ≡ some (map (schema_field schema) qs)
  unfolding result_fields
  result_fields-map [] k = refl
  result_fields-map (q ∷ qs) (l, ks) =
      rw (find-kind_of q l, result_fields)
        (rw (result_fields-map qs ks) (rw (item_name-spelled q l)))

  -- SQLite answers each PRAGMA table_info by a schema, in a table with a header of six columns. The
  -- statement has no aliases: its words up to FROM, without their table names, are no AS and have no
  -- bracket, and no word behind it is a select. `getTables` finds tables in it, and so does not read behind its end. If it
  -- succeeds and its columns are named with their tables, whose names have no dot, the result has the
  -- number of rows and of changes that SQLite says, and for each column a field of its name without
  -- the table's, with the type that the table was created with.
  pub dbd_query-schema :
      (get_table : Bytes → Option Answer) (qs : List Qualified) (numrows changes : ℕ)
      → AreColumns qs
      → get_table statement
        ≡ some (record { columns = map spelled qs; numrows = numrows; changes = changes })
      → dbd_query table_info get_table statement
        ≡ returned (record {
          numrows_matched = numrows;
          numrows_affected = changes;
          fields = map (schema_field schema) qs;
        })
  unfolding dbd_query
  dbd_query-schema get_table qs numrows changes k e =
      rw (e, dbd_query) (rw (result_fields-map qs k, dbd_query))
