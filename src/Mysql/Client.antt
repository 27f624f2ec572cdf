-- ===== src/Mysql/Client.antt =====
-- What drivers/mysql/dbd_mysql.c gives to libmysqlclient and takes from it: the flags of `dbd_connect`, and the
-- library, which is a parameter of Mysql/Connection.
use libdbi_drivers.Prelude.{ℕ, Bool, false, Option, List, [], ◌∷◌, ltb, if◌then◌else◌, Bytes, codes}
use libdbi_drivers.Prelude.Int.{ℤ, pos, negsuc}
use libdbi_drivers.Dbi.{Field}
use libdbi_drivers.Mysql.Charset.{Reply}

pub data ClientFlag : Type 0 where
  client_compress client_found_rows client_ignore_space client_interactive : ClientFlag
  client_local_files client_multi_statements client_multi_results client_no_schema : ClientFlag
  client_odbc : ClientFlag

-- The options of `dbd_connect` that set a flag, in their order.
abbrev pub flag_options : List (Bytes × ClientFlag)
flag_options =
    (codes "mysql_compression", client_compress)
    ∷ (codes "mysql_client_compress", client_compress)
    ∷ (codes "mysql_client_found_rows", client_found_rows)
    ∷ (codes "mysql_client_ignore_SPACE", client_ignore_space)
    ∷ (codes "mysql_client_interactive", client_interactive)
    ∷ (codes "mysql_client_local_files", client_local_files)
    ∷ (codes "mysql_client_multi_statements", client_multi_statements)
    ∷ (codes "mysql_client_multi_results", client_multi_results)
    ∷ (codes "mysql_client_no_schema", client_no_schema)
    ∷ (codes "mysql_client_odbc", client_odbc)
    ∷ []

abbrev pub is_positive : ℤ → Bool
is_positive (pos n) = ltb 0 n
is_positive (negsuc n) = false

-- `client_flags`, by the names of its bits; `numeric` is `dbi_conn_get_option_numeric`.
unfoldable pub flags_of : (Bytes → ℤ) → List (Bytes × ClientFlag) → List ClientFlag
flags_of numeric [] = []
flags_of numeric ((name, flag) ∷ options) =
    let rest = flags_of numeric options in if is_positive (numeric name) then flag ∷ rest else rest

unfoldable pub client_flags : (Bytes → ℤ) → List ClientFlag
unfolding flags_of
client_flags numeric = flags_of numeric flag_options

-- What `mysql_real_connect` is given of the options.
pub record Login : Type 0 where
  pub host : Option Bytes
  pub username : Option Bytes
  pub password : Option Bytes
  pub dbname : Option Bytes
  pub port : ℤ
  pub unix_socket : Option Bytes
  pub flags : List ClientFlag

-- What is read of a result that is stored.
pub record Stored : Type 0 where
  pub num_rows : ℕ
  pub fields : List Field

-- libmysqlclient, on a world of its own. A `Bool` is true where the function succeeds; `ask` is what the
-- server answers to the queries of `dbd_get_encoding`.
pub record Mysql : Type 1 where
  pub World : Type 0
  pub init : World → Option ℕ × World
  pub set_timeout : ℕ → ℤ → World → World
  pub real_connect : ℕ → Login → World → Bool × World
  pub close : ℕ → World → World
  pub error : ℕ → World → Bytes
  pub errno : ℕ → World → ℕ
  pub query : ℕ → Bytes → World → Bool × World
  pub store_result : ℕ → World → Option Stored × World
  pub affected_rows : ℕ → World → ℕ
  pub select_db : ℕ → Bytes → World → Bool × World
  pub insert_id : ℕ → World → ℕ
  pub ping : ℕ → World → Bool × World
  pub ask : World → Bytes → Reply
