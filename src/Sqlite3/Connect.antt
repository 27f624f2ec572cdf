-- ===== src/Sqlite3/Connect.antt =====
-- `_real_dbd_connect` of drivers/sqlite3/dbd_sqlite3.c up to the opening of the database, and the timeout
-- that is set then. `none` for an option is a null pointer, and -1 a number that is not set.
pub mod Path
use libdbi_drivers.Prelude.{
  ℕ, suc, ◌+◌, ◌*◌, Bool, true, false, Option, none, some, [], ◌∷◌, ◌++◌, ◌==◌, if◌then◌else◌,
  Bytes, codes, length,
}
use libdbi_drivers.Prelude.Int.{ℤ, pos, negsuc}
use libdbi_drivers.CString.{equal}

-- What the function opens the connection with: an error that returns -1, a read before the buffer, or the
-- file, by `sqlite3_open` or by `sqlite3_open16`.
pub data Opening : Type 0 where
  refused undefined : Opening
  open8 open16 : Bytes → Opening

abbrev pub chosen_dbname : Bytes → Option Bytes → Option Bytes
chosen_dbname [] option' = option'
chosen_dbname (c ∷ database) option' = some (c ∷ database)

abbrev pub ends_with_slash : Bytes → Bool
ends_with_slash [] = false
ends_with_slash (c ∷ []) = c == b'/'
ends_with_slash (c ∷ d ∷ s) = ends_with_slash (d ∷ s)

-- `db_fullpath`; the character before an empty string is read.
abbrev pub db_fullpath : Bytes → Bytes → Option Bytes
db_fullpath [] dbname = none
db_fullpath (c ∷ dbdir) dbname =
    some
      (if ends_with_slash (c ∷ dbdir) then (c ∷ dbdir) ++ dbname else (c ∷ dbdir) ++ b'/' ∷ dbname)

abbrev pub chosen_encoding : Option Bytes → Bytes
chosen_encoding none = codes "UTF-8"
chosen_encoding (some encoding) = encoding

abbrev pub opened_by : Bytes → Option Bytes → Opening
opened_by encoding none = undefined
opened_by encoding (some path) = if equal encoding (codes "UTF-8") then open8 path else open16 path

unfoldable pub opening : Bytes → Option Bytes → Option Bytes → Option Bytes → Opening
unfolding equal
opening database dbname encoding dbdir = elim (chosen_dbname database dbname) [
  | none ↦ refused
  | some name ↦ elim dbdir [
    | none ↦ refused
    | some dir ↦ opened_by (chosen_encoding encoding) (db_fullpath dir name)
  ]
]

-- `1000*t`
abbrev pub thousandfold : ℤ → ℤ
thousandfold (pos n) = pos (1000 * n)
thousandfold (negsuc n) = negsuc (1000 * n + 999)

abbrev pub is_unset : ℤ → Bool
is_unset (pos n) = false
is_unset (negsuc n) = n == 0

-- What `sqlite3_busy_timeout` is called with, by the options sqlite3_timeout and timeout.
unfoldable pub busy_timeout : ℤ → ℤ → ℤ
busy_timeout sqlite3_timeout timeout =
    if is_unset sqlite3_timeout
    then (if is_unset (thousandfold timeout) then pos 0 else thousandfold timeout)
    else sqlite3_timeout
