-- ===== src/Tests/SqliteTypes.antt =====
-- Column types of the SQLite driver at concrete inputs.
use libdbi_drivers.Prelude.{
  Option, none, some, List, [], ◌∷◌, ◌++◌, ◌≡◌, refl, arith, Bytes, codes, if◌then◌else◌,
}
use libdbi_drivers.CString.{equal, to_upper}
use libdbi_drivers.Sqlite.CreateTable.{Fetched, outside, absent, get_field_type}
use libdbi_drivers.Sqlite.CreateTable.Columns.{Column, AreColumns, written, type_among}
use libdbi_drivers.Sqlite.CreateTable.Terminates.{get_field_type-some}
use libdbi_drivers.Sqlite.Columns.{kind_of_fetched, find_result_field_types}
use libdbi_drivers.Sqlite.Columns.Found.{closed, find_result_field_types-written}
use libdbi_drivers.Sqlite.Declared.{type_of_call}

abbrev columns : List Column
columns =
    record { indent = []; name = codes "id"; type = codes "INTEGER PRIMARY KEY" }
    ∷ record { indent = codes " "; name = codes "born"; type = codes "TIMESTAMP" }
    ∷ record { indent = codes " "; name = codes "name"; type = codes "VARCHAR(20)" }
    ∷ []

columns-AreColumns : AreColumns columns
columns-AreColumns = ground arith

get_field_type-some_example :
    (f : Fetched) × (get_field_type (codes "CREATE TABLE p (a)") (codes "a") ≡ some f)
get_field_type-some_example = get_field_type-some (codes "CREATE TABLE p (a)") (codes "a")

-- A column without a type, and one with a comma in its type, are read past the end.
untyped : get_field_type (codes "CREATE TABLE p (a)") (codes "a") ≡ some outside
unfolding get_field_type
untyped = refl

comma_in_type : get_field_type (codes "CREATE TABLE p (a DECIMAL(10,2))") (codes "b") ≡ some outside
unfolding get_field_type
comma_in_type = refl

-- A column behind one without a type is not found.
hidden : get_field_type (codes "CREATE TABLE p (a, b TEXT)") (codes "b") ≡ some absent
unfolding get_field_type
hidden = refl

abbrev master : Bytes → Option Bytes
master table =
    if equal table (codes "p")
    then some (codes "CREATE TABLE p " ++ b'(' ∷ written (closed columns))
    else none

abbrev temp_master : Bytes → Option Bytes
temp_master table = none

find_result_field_types-written_example :
    find_result_field_types master temp_master (codes "p.name") (codes "select p.name from p")
    ≡ kind_of_fetched (type_among columns (codes "name"))
unfolding type_of_call equal to_upper
find_result_field_types-written_example =
    find_result_field_types-written master temp_master (codes "CREATE TABLE p ") columns (codes "p")
      (codes "name") (codes "select p.name from p") (ground arith) refl refl refl (ground arith)
      columns-AreColumns
