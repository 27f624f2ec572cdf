-- ===== src/Tests/Rows.antt =====
-- The row readers and type translations at concrete inputs.
use libdbi_drivers.Prelude.{ℕ, true, false, List, [], ◌∷◌, Bytes, codes}
use libdbi_drivers.Freetds.Types.{Datafmt, cs_char}
use libdbi_drivers.Msql.Rows as MsqlRows
use libdbi_drivers.Msql.Types.{MsqlType, int_type, char_type}
use libdbi_drivers.Mysql.Types.{MysqlField, long_type}

abbrev unescape : Bytes → Bytes
unescape s = s

abbrev mysql_n : MysqlField
mysql_n = record { name = codes "n"; type = long_type; charsetnr = 63; is_unsigned = true }

abbrev msql_columns : List (Bytes × MsqlType)
msql_columns = (codes "n", int_type) ∷ (codes "s", char_type) ∷ []

abbrev column : Datafmt
column = record { datatype = cs_char; maxlength = 10; nullterm = false }

abbrev four : ℕ
four = 4
