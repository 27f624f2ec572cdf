-- ===== src/Mysql/Charset.antt =====
-- `dbd_get_encoding` of drivers/mysql/dbd_mysql.c, and the part of `dbd_connect` behind the connection,
-- which sets the connection's encoding. The server is a parameter, which answers a query with the
-- text of the second column of the first row: `none` is no result, `some none` no row or a NULL.
pub mod Auto
use libdbi_drivers.Prelude.{
  ℕ, Bool, true, false, not, Option, none, some, List, [], ◌∷◌, ◌++◌, if◌then◌else◌, Bytes, codes,
}
use libdbi_drivers.CString.{equal, strstr}
use libdbi_drivers.Mysql.Encoding.{
  mysql_encoding_hash, dbd_encoding_to_iana, dbd_encoding_from_iana,
}
use libdbi_drivers.Mysql.Encoding.Names.{has_prefix_of}

abbrev pub Reply : Type 0
Reply = Option (Option Bytes)

-- The pointer that is returned: null, into the table, or into a result that has been freed; or an access
-- that is undefined before that.
pub data Encoding : Type 0 where
  null undefined : Encoding
  static freed : Bytes → Encoding

-- `my_enc`, a character behind the text's end, or a null pointer.
pub data Found : Type 0 where
  nothing beyond : Found
  at : Bytes → Found

-- `my_enc += 14`
abbrev pub behind_keyword : Option Bytes → Found
behind_keyword none = nothing
behind_keyword (some (a ∷ b ∷ c ∷ d ∷ e ∷ f ∷ g ∷ h ∷ i ∷ j ∷ k ∷ l ∷ m ∷ n ∷ s)) = at s
behind_keyword (some s) = beyond

unfoldable pub in_schema : Reply → Found
unfolding strstr
in_schema none = nothing
in_schema (some none) = nothing
in_schema (some (some [])) = nothing
in_schema (some (some (c ∷ s))) = behind_keyword (strstr (c ∷ s) (codes "CHARACTER SET"))

-- `dbd_encoding_to_iana`, and the results that are freed before its value is returned.
unfoldable pub translated : Bytes → Encoding
translated my_enc =
    if has_prefix_of mysql_encoding_hash my_enc
    then static (dbd_encoding_to_iana my_enc)
    else freed my_enc

-- Both variables without a value: with two results, the first is freed twice.
abbrev pub without_encoding : Reply → Reply → Encoding
without_encoding (some connection) (some character_set) = undefined
without_encoding dbires1 dbires2 = null

abbrev pub in_variables : Reply → Reply → Encoding
in_variables (some (some my_enc)) dbires2 = translated my_enc
in_variables dbires1 (some (some my_enc)) = translated my_enc
in_variables dbires1 dbires2 = without_encoding dbires1 dbires2

abbrev pub is_auto : Option Bytes → Bool
is_auto none = false
is_auto (some encoding) = equal encoding (codes "auto")

module _ (ask : Bytes → Reply) where
  abbrev pub of_connection : Encoding
  of_connection =
      in_variables (ask (codes "SHOW VARIABLES LIKE 'character_set_connection'"))
        (ask (codes "SHOW VARIABLES LIKE 'character_set'"))

  abbrev pub of_schema : Found → Encoding
  of_schema nothing = of_connection
  of_schema beyond = undefined
  of_schema (at my_enc) = translated my_enc

  -- On a connection that is open, with the option `encoding`.
  unfoldable pub dbd_get_encoding : Option Bytes → Bytes → Encoding
  unfolding equal
  dbd_get_encoding encodingopt current_db =
      if is_auto encodingopt
      then of_schema (in_schema (ask (codes "SHOW CREATE DATABASE " ++ current_db)))
      else of_connection

  -- `SET NAMES '%s'`
  abbrev pub set_names : Bytes → Bytes
  set_names iana = codes "SET NAMES '" ++ (dbd_encoding_from_iana iana ++ b'\'' ∷ [])

  abbrev pub names_of : Encoding → Option (List Bytes)
  names_of null = some []
  names_of undefined = none
  names_of (static iana) = some (set_names iana ∷ [])
  names_of (freed iana) = none

  -- The statements that `dbd_connect` sends for the option `encoding`; `none` is an access to freed
  -- memory or behind a text.
  unfoldable pub encoding_statements : Option Bytes → Bytes → Option (List Bytes)
  unfolding dbd_get_encoding equal
  encoding_statements none current_db = some []
  encoding_statements (some []) current_db = some []
  encoding_statements (some (c ∷ encoding)) current_db =
      if equal (c ∷ encoding) (codes "auto")
      then names_of (dbd_get_encoding (some (c ∷ encoding)) current_db)
      else some (set_names (c ∷ encoding) ∷ [])
