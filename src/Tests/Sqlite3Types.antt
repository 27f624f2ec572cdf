-- ===== src/Tests/Sqlite3Types.antt =====
-- The field types of the SQLite3 driver at concrete inputs.
use libdbi_drivers.Prelude.{Option, none, some, List, [], ◌∷◌, ◌++◌, ◌≡◌, refl, Bytes, codes}
use libdbi_drivers.CString.{equal, split_at, to_lower, to_upper}
use libdbi_drivers.Sqlite3.Columns.{Table, TableInfo, get_field_type, find_result_field_types}
use libdbi_drivers.Sqlite3.Columns.Catalog.{Schema, answer}
use libdbi_drivers.Sqlite3.Columns.Found.{Column, flat, declared, get_field_type_lem}
use libdbi_drivers.Sqlite3.Declared.{type_of_declaration, type_of_function}
use libdbi_drivers.Sqlite3.Select.{
  answered, column, undefined, strip_table, scan, scan_start, resolve,
}
use libdbi_drivers.Sqlite3.Select.Alias.{scan-alias}
use libdbi_drivers.Sqlite3.Tables.{listed, overrun, get_tables}
use libdbi_drivers.Sqlite3.Types.{long_kind, string_kind}

resolve_runs :
    (resolve (codes "n") (codes "SELECT count(a, b) AS n, x FROM t") ≡ answered long_kind)
    × (resolve (codes "n") (codes "SELECT t.x AS n FROM t") ≡ column (codes "x"))
    × (resolve (codes "x") (codes "SELECT x FROM t as x") ≡ column (codes "x"))
    × (resolve (codes "n") (codes "SELECT (a + b) AS n FROM t") ≡ answered string_kind)
    × (resolve (codes "n") (codes "SELECT sum(a AS n") ≡ undefined)
unfolding resolve equal type_of_function to_lower
resolve_runs = (refl, refl, refl, refl, refl)

get_tables_runs :
    (get_tables (codes "SELECT a FROM t1, t2 AS u WHERE x = 1")
      ≡ listed (codes "t1" ∷ codes "t2" ∷ []))
    × (get_tables (codes "SELECT a FROM (SELECT b FROM t1) , t3;")
        ≡ listed (codes "t1" ∷ codes "t3" ∷ []))
    × (get_tables (codes "SELECT a FROM t1 JOIN t2 ON a = b") ≡ overrun)
    × (get_tables (codes "SELECT a FROM t1 join t2 using (a) join t3 on b, t4")
        ≡ listed (codes "t1" ∷ codes "t2" ∷ codes "t3" ∷ codes "t4" ∷ []))
unfolding get_tables equal to_lower
get_tables_runs = (refl, refl, refl, refl)

abbrev header : Table
header =
    some (codes "cid")
    ∷ some (codes "name")
    ∷ some (codes "type")
    ∷ some (codes "notnull")
    ∷ some (codes "dflt_value")
    ∷ some (codes "pk")
    ∷ []

abbrev column_of : Bytes → Bytes → Column
column_of name type = record {
  number = some (codes "0");
  name = name;
  type = type;
  not_null = some (codes "0");
  default_value = none;
  key = some (codes "0");
}

abbrev columns : List Column
columns = column_of (codes "id") (codes "INTEGER") ∷ column_of (codes "s") (codes "TEXT") ∷ []

get_field_type_lem_example :
    get_field_type (header ++ flat columns) (codes "s") 2 ≡ some (some (codes "TEXT"))
unfolding declared equal
get_field_type_lem_example = get_field_type_lem header columns (codes "s") refl

abbrev schema : Schema
schema t = some columns

abbrev table_info : Bytes → Option TableInfo
table_info t = answer header (schema t)

find_result_field_types_runs :
    (find_result_field_types
        (λ t. some (header ++ flat columns, 2))
        (codes "n")
        (codes "SELECT id, s AS n FROM t")
      ≡ some string_kind)
    × (find_result_field_types
          (λ t. some (header ++ flat columns, 2))
          (codes "id")
          (codes "SELECT id FROM t")
        ≡ some long_kind)
unfolding find_result_field_types equal to_lower type_of_declaration to_upper resolve get_tables
find_result_field_types_runs = (refl, refl)

scan-alias_example :
    scan
      (codes "SELECT"
        ∷ codes "x"
        ∷ codes "AS"
        ∷ codes "n"
        ∷ codes "y"
        ∷ codes "FROM"
        ∷ codes "t"
        ∷ [])
      (scan_start (codes "n"))
    ≡ column (codes "x")
unfolding split_at equal strip_table
scan-alias_example =
    scan-alias (codes "SELECT" ∷ []) (codes "y" ∷ []) (codes "t" ∷ []) (codes "x") (codes "n")
      ((refl, refl, refl, refl), tt) (refl, refl, refl, refl) refl ((refl, refl, refl, refl), tt)
      (refl, tt)
