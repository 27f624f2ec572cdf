-- ===== src/Pgsql/Conninfo.antt =====
-- The connection string that `_dbd_real_connect` of drivers/pgsql/dbd_pgsql.c puts together from the
-- options of a connection. `_dbd_escape_chars` of libdbi and the conversion `%d` are parameters.
pub mod RoundTrip
pub mod Settings
use libdbi_drivers.Prelude.{
  ◌||◌, not, ◌&&◌, Option, none, some, List, [], ◌∷◌, ◌++◌, if◌then◌else◌, Bytes, codes,
}
use libdbi_drivers.Prelude.Int.{ℤ}
use libdbi_drivers.CString.{equal, starts_with}

-- The value of an option: `dbi_conn_get_option` returns a null pointer for a number.
pub data Setting : Type 0 where
  text : Bytes → Setting
  number : ℤ → Setting

-- The options in the order of `dbi_conn_get_option_list`.
abbrev pub Options : Type 0
Options = List (Bytes × Setting)

-- What follows the first six characters.
abbrev pub behind_prefix : Bytes → Bytes
behind_prefix (a ∷ b ∷ c ∷ d ∷ e ∷ f ∷ s) = s
behind_prefix s = []

-- The keyword that `pgopt` ends as; `none` is an option that is passed over.
unfoldable pub keyword : Bytes → Option Bytes
unfolding equal starts_with
keyword pgopt =
    if equal pgopt (codes "encoding") || equal pgopt (codes "dbname")
    then none
    else if equal pgopt (codes "username")
    then some (codes "user")
    else if equal pgopt (codes "timeout")
    then some (codes "connect_timeout")
    else if starts_with (codes "pgsql_") pgopt
    then some (behind_prefix pgopt)
    else if not (equal pgopt (codes "password"))
        && not (equal pgopt (codes "host"))
        && not (equal pgopt (codes "port"))
    then none
    else some pgopt

-- `%s='%s'` and `%s='%d'`
abbrev pub assignment : Bytes → Bytes → Bytes
assignment key value = key ++ b'=' ∷ b'\'' ∷ (value ++ b'\'' ∷ [])

-- CONNINFO_APPEND, on a string that may be a null pointer.
unfoldable pub conninfo_append : Option Bytes → Bytes → Bytes → Option Bytes
conninfo_append none key value = some (assignment key value)
conninfo_append (some conninfo) key value = some (conninfo ++ b' ' ∷ assignment key value)

-- The value of the option `dbname`, if it is a text.
unfoldable pub dbname_option : Options → Option Bytes
unfolding equal
dbname_option [] = none
dbname_option ((name, text value) ∷ options) =
    if equal name (codes "dbname") then some value else dbname_option options
dbname_option ((name, number z) ∷ options) =
    if equal name (codes "dbname") then none else dbname_option options

-- `dbname`: the argument `db`, which is empty for a null pointer, or the option.
unfoldable pub chosen_dbname : Options → Bytes → Option Bytes
unfolding dbname_option
chosen_dbname options [] = dbname_option options
chosen_dbname options (c ∷ db) = some (c ∷ db)

-- `conninfo ? conninfo : ""`
abbrev pub or_empty : Option Bytes → Bytes
or_empty none = []
or_empty (some s) = s

module _ (escape_chars : Bytes → Bytes → Bytes) (print_int : ℤ → Bytes) where
  -- CONNINFO_APPEND_ESCAPED or CONNINFO_APPEND, by the kind of value.
  abbrev pub value_text : Setting → Bytes
  value_text (text value) = escape_chars value (b'\\' ∷ b'\'' ∷ [])
  value_text (number z) = print_int z

  -- One pass of the `while` loop.
  unfoldable pub append_option : Option Bytes → Bytes → Setting → Option Bytes
  unfolding conninfo_append
  append_option conninfo optname setting = elim (keyword optname) [
    | none ↦ conninfo
    | some pgopt ↦ conninfo_append conninfo pgopt (value_text setting)
  ]

  unfoldable pub append_options : Option Bytes → Options → Option Bytes
  unfolding append_option
  append_options conninfo [] = conninfo
  append_options conninfo ((optname, setting) ∷ options) =
      append_options (append_option conninfo optname setting) options

  -- What `PQconnectdb` is called with.
  unfoldable pub conninfo : Options → Bytes → Bytes
  unfolding append_options chosen_dbname conninfo_append
  conninfo options db =
      let assembled = append_options none options in
      let whole : Option Bytes = elim (chosen_dbname options db) [
        | none ↦ assembled
        | some dbname ↦
            conninfo_append assembled (codes "dbname") (escape_chars dbname (b'\\' ∷ b'\'' ∷ []))
      ] in
      or_empty whole
