-- ===== src/Tests/Results.antt =====
-- Results of queries, rows and binary literals at concrete inputs.
use libdbi_drivers.Prelude.{
  Option, none, some, List, [], ◌∷◌, ◌++◌, ◌≡◌, refl, arith, Bytes, codes, map,
}
use libdbi_drivers.CString.{equal, to_lower, split_at}
use libdbi_drivers.Sql.{read_literal}
use libdbi_drivers.Sql.Binary.{mysql_dbd_quote_binary, pgsql_dbd_quote_binary}
use libdbi_drivers.Sql.Binary.Room.{binary_literals}
use libdbi_drivers.Sqlite3.Columns.{Table, TableInfo}
use libdbi_drivers.Sqlite3.Columns.Found.{Column}
use libdbi_drivers.Sqlite3.Columns.Catalog.{Schema, answer}
use libdbi_drivers.Sqlite3.Query.{Answer, returned, dbd_query, insertion}
use libdbi_drivers.Sqlite3.Query.Fields.{Qualified, NoAliases, schema_field, dbd_query-schema}
use libdbi_drivers.Sqlite3.Query.Listing.{before_name, insertion-literal}
use libdbi_drivers.Sqlite3.Select.{strtok, strip_table}
use libdbi_drivers.Sqlite3.Tables.{listed, get_tables}

binary_literals_example :
    (mysql_dbd_quote_binary (λ s. s) (codes "ab")
      ≡ some (record { dest = codes "'ab'"; returned = 4 }))
    × (pgsql_dbd_quote_binary (λ s. some s) (codes "ab")
        ≡ some (record { dest = codes "'ab'"; returned = 4 }))
binary_literals_example =
    binary_literals (λ s. s) (λ s. some s) (codes "ab") (codes "ab") (λ s. omega arith) refl

abbrev header : Table
header =
    some (codes "cid")
    ∷ some (codes "name")
    ∷ some (codes "type")
    ∷ some (codes "notnull")
    ∷ some (codes "dflt_value")
    ∷ some (codes "pk")
    ∷ []

abbrev columns : List Column
columns =
    record {
      number = some (codes "0");
      name = codes "id";
      type = codes "INTEGER";
      not_null = some (codes "0");
      default_value = none;
      key = some (codes "1");
    }
    ∷ []

abbrev schema : Schema
schema t = some columns

abbrev table_info : Bytes → Option TableInfo
table_info t = answer header (schema t)

abbrev statement : Bytes
statement = codes "SELECT t.id FROM t, u"

abbrev qualified : List Qualified
qualified = record { first = b't'; rest = []; name = codes "id" } ∷ []

abbrev get_table : Bytes → Option Answer
get_table s = some (record { columns = codes "t.id" ∷ []; numrows = 2; changes = 0 })

tables_found : get_tables statement ≡ listed (codes "t" ∷ codes "u" ∷ [])
unfolding get_tables equal to_lower
tables_found = refl

statement_plain : NoAliases statement
unfolding strtok equal strip_table split_at
statement_plain = (
  codes "SELECT" ∷ codes "t.id" ∷ [],
  codes "t" ∷ codes "u" ∷ [],
  refl,
  ((refl, refl, refl), ((refl, refl, refl), tt)),
  (refl, (refl, tt)),
)

dbd_query-schema_example :
    dbd_query table_info get_table statement
    ≡ returned (record {
      numrows_matched = 2;
      numrows_affected = 0;
      fields = map (schema_field schema) qualified;
    })
dbd_query-schema_example =
    dbd_query-schema header refl schema table_info (λ t. refl) statement
      (codes "t" ∷ codes "u" ∷ []) tables_found statement_plain get_table qualified 2 0
      (ground arith) refl

insertion-literal_example :
    ((rest : Bytes) × (insertion (codes "o") ≡ before_name ++ rest)
      × (read_literal rest ≡ some (codes "o", codes ")")))
    × ((rest : Bytes) × (insertion (codes "o'neil") ≡ before_name ++ rest)
        × (read_literal rest ≡ some (codes "o", codes "neil')")))
insertion-literal_example =
    insertion-literal (codes "o") b'n' (codes "eil") (ground arith) (ground arith)
