-- ===== src/Firebird/Attach.antt =====
-- What `_dbd_real_connect` of drivers/firebird/utility.c gives to `isc_attach_database`: the database
-- parameter block and the name of the database. The codes of the block's entries are those of
-- Firebird's header. `none` is an access outside of an array or through a null pointer.
pub mod Parameters
pub mod Named
use libdbi_drivers.Prelude.{
  ℕ, zero, suc, ◌+◌, ◌%◌, Bool, true, false, Option, none, some, List, [], ◌∷◌, ◌++◌, ◌==◌, leb,
  ltb, if◌then◌else◌, Bytes, codes, length,
}
use libdbi_drivers.Firebird.Encoding.{dbd_encoding_from_iana}

pub record DpbCodes : Type 0 where
  pub version1 : ℕ
  pub num_buffers : ℕ
  pub user_name : ℕ
  pub password : ℕ
  pub lc_ctype : ℕ

-- A code, the length in one byte, and the characters.
abbrev pub entry : ℕ → Bytes → Bytes
entry code text = code ∷ length text % 256 ∷ text

-- `if(encoding == NULL || *encoding == '\0') encoding = "NONE";`
abbrev pub chosen_encoding : Option Bytes → Bytes
chosen_encoding none = codes "NONE"
chosen_encoding (some []) = codes "NONE"
chosen_encoding (some (c ∷ s)) = c ∷ s

-- The bytes that are written from `dpb_buffer` on, whatever their number, for the server's name of the
-- encoding.
unfoldable pub written : DpbCodes → Bytes → Bytes → Bytes → Bytes
written isc username password fb_encoding =
    isc.version1
    ∷ isc.num_buffers
    ∷ 1
    ∷ 90
    ∷ (entry isc.user_name username
        ++ (entry isc.password password ++ entry isc.lc_ctype fb_encoding))

-- The block is an array of 256 bytes.
abbrev pub in_buffer : Bytes → Option Bytes
in_buffer s = if leb (length s) 256 then some s else none

unfoldable pub dpb : DpbCodes → Option Bytes → Option Bytes → Option Bytes → Option Bytes
unfolding written dbd_encoding_from_iana
dpb isc (some username) (some password) encoding =
    in_buffer (written isc username password (dbd_encoding_from_iana (chosen_encoding encoding)))
dpb isc username password encoding = none

-- `strncpy`-like: the first characters of a text.
abbrev pub first : ℕ → Bytes → Bytes
first zero s = []
first (suc n) [] = []
first (suc n) (c ∷ s) = c ∷ first n s

abbrev pub ends_with_slash : Bytes → Bool
ends_with_slash [] = false
ends_with_slash (c ∷ []) = c == b'/'
ends_with_slash (c ∷ d ∷ s) = ends_with_slash (d ∷ s)

abbrev pub chosen_dbdir : Bytes → Option Bytes → Bytes
chosen_dbdir default_dbdir none = default_dbdir
chosen_dbdir default_dbdir (some []) = default_dbdir
chosen_dbdir default_dbdir (some (c ∷ s)) = c ∷ s

-- The array for the path has `path_max` (PATH_MAX) bytes, and one is for the terminating zero.
abbrev pub in_path : ℕ → Bytes → Option Bytes
in_path path_max path = if ltb (length path) path_max then some path else none

-- The character before the array is read if there is no directory.
abbrev pub in_directory : ℕ → Bytes → Bytes → Option Bytes
in_directory path_max [] dbname = none
in_directory path_max (c ∷ dbdir) dbname =
    in_path path_max
      (if ends_with_slash (c ∷ dbdir) then (c ∷ dbdir) ++ dbname else (c ∷ dbdir) ++ b'/' ∷ dbname)

unfoldable pub _firebird_populate_db_string : ℕ → Bytes → Option Bytes → Bytes → Option Bytes
_firebird_populate_db_string path_max default_dbdir dbdir dbname =
    in_directory path_max (chosen_dbdir default_dbdir dbdir) dbname

-- `snprintf(dbase, 256, ...)`
abbrev pub at_host : Option Bytes → Bytes → Bytes
at_host none path = first 255 path
at_host (some []) path = first 255 path
at_host (some (c ∷ host)) path = first 255 ((c ∷ host) ++ b':' ∷ path)

-- The name that is attached to.
unfoldable pub dbase : ℕ → Bytes → Option Bytes → Option Bytes → Bytes → Option Bytes
unfolding _firebird_populate_db_string
dbase path_max default_dbdir dbdir host dbname =
    elim (_firebird_populate_db_string path_max default_dbdir dbdir dbname) [
      | none ↦ none
      | some path ↦ some (at_host host path)
    ]
