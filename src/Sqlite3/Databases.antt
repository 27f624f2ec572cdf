-- ===== src/Sqlite3/Databases.antt =====
-- The loop of `dbd_list_dbs` in drivers/sqlite3/dbd_sqlite3.c over the files of the data directory, which
-- fills the table that is then queried. What the INSERT of a name answers is a parameter.
pub mod Matched
use libdbi_drivers.Prelude.{
  ℕ, zero, suc, Bool, true, false, ◌&&◌, Option, none, some, List, [], ◌∷◌, leb, if◌then◌else◌,
  Bytes, codes, length,
}
use libdbi_drivers.CString.{equal, c_string}
use libdbi_drivers.Sqlite3.Wildcard.{Verdict, found, wild_case_compare}

-- An entry of the directory; `none` for the contents is a file that cannot be opened.
pub record Entry : Type 0 where
  pub d_name : Bytes
  pub is_regular : Bool
  pub contents : Option Bytes

-- `fread(magic_text, 1, n, fp)`
abbrev pub first_bytes : ℕ → Bytes → Bytes
first_bytes zero s = []
first_bytes (suc n) [] = []
first_bytes (suc n) (c ∷ s) = c ∷ first_bytes n s

abbrev pub has_magic : Bytes → Option Bytes → Bool
has_magic magic none = false
has_magic magic (some s) =
    leb (length magic) (length (first_bytes (length magic) s))
    && equal (c_string (first_bytes (length magic) s)) magic

abbrev pub is_found : Verdict → Bool
is_found found = true
is_found verdict = false

-- Without a pattern all files are used.
abbrev pub is_matched : Option Bytes → Bytes → Bool
is_matched none name = true
is_matched (some pattern) name = is_found (wild_case_compare name pattern b'\\')

module _ (magic : Bytes) (insert : Bytes → Bool) (pattern : Option Bytes) where
  -- The names that are inserted. An error of the INSERT ends the loop.
  unfoldable pub listed : List Entry → List Bytes
  unfolding equal c_string wild_case_compare
  listed [] = []
  listed (e ∷ entries) =
      let rest = listed entries in
      if e.is_regular && has_magic magic e.contents && is_matched pattern e.d_name
      then (if insert e.d_name then e.d_name ∷ rest else [])
      else rest

abbrev pub sqlite3_magic : Bytes
sqlite3_magic = codes "SQLite format 3"

unfoldable pub databases : (Bytes → Bool) → Option Bytes → List Entry → List Bytes
unfolding listed
databases insert pattern entries = listed sqlite3_magic insert pattern entries
