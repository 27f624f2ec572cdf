-- ===== src/Tests/Opening.antt =====
-- How connections are opened, at concrete inputs.
use libdbi_drivers.Prelude.{
  true, false, none, some, List, [], ◌∷◌, ◌≡◌, refl, arith, if◌then◌else◌, Bytes, codes,
}
use libdbi_drivers.CString.{equal, strstr}
use libdbi_drivers.Encoding.{has_iana}
use libdbi_drivers.Firebird.Encoding as FirebirdEncoding
use libdbi_drivers.Firebird.Attach.{DpbCodes, dpb}
use libdbi_drivers.Firebird.Attach.Parameters.{read_dpb, read_dpb-dpb}
use libdbi_drivers.Mysql.Encoding as MysqlEncoding
use libdbi_drivers.Mysql.Encoding.Names.{has_prefix_of}
use libdbi_drivers.Mysql.Charset.{Reply, set_names, encoding_statements}
use libdbi_drivers.Mysql.Charset.Auto.{encoding_statements-auto}
use libdbi_drivers.Sqlite3.Databases.{Entry, databases}

abbrev isc : DpbCodes
isc = record { version1 = 1; num_buffers = 5; user_name = 28; password = 29; lc_ctype = 48 }

read_dpb-dpb_example :
    (block : Bytes) × (dpb isc (some (codes "sysdba")) (some (codes "masterkey")) none ≡ some block)
    × (read_dpb 4 block
        ≡ some (
          1,
          (5, 90 ∷ []) ∷ (28, codes "sysdba") ∷ (29, codes "masterkey") ∷ (48, codes "NONE") ∷ [],
        ))
unfolding FirebirdEncoding.dbd_encoding_from_iana
read_dpb-dpb_example =
    read_dpb-dpb isc (codes "sysdba") (codes "masterkey") (codes "NONE") none refl (omega arith)

abbrev schema : Bytes
schema = codes "CREATE DATABASE `d` /*!40100 DEFAULT CHARACTER SET latin2 */"

abbrev server : Bytes → Reply
server query = if equal query (codes "SHOW CREATE DATABASE d") then some (some schema) else none

encoding_statements-auto_example :
    encoding_statements server (some (codes "auto")) (codes "d")
    ≡ some (set_names server (codes "ISO-8859-2") ∷ [])
unfolding equal strstr has_iana has_prefix_of MysqlEncoding.dbd_encoding_from_iana
encoding_statements-auto_example =
    encoding_statements-auto server (codes "d") schema (codes "ISO-8859-2") (codes "*/") refl refl
      refl refl

abbrev directory : List Entry
directory =
    record { d_name = codes "."; is_regular = false; contents = none }
    ∷ record {
      d_name = codes "a.db";
      is_regular = true;
      contents = some (codes "SQLite format 3 ...");
    }
    ∷ record { d_name = codes "a.txt"; is_regular = true; contents = some (codes "SQLite") }
    ∷ record { d_name = codes "b.db"; is_regular = true; contents = some (codes "SQLite format 3") }
    ∷ []

listed_run : databases (λ name. true) (some (codes "a%")) directory ≡ codes "a.db" ∷ []
unfolding databases
listed_run = refl
