-- ===== src/Firebird/Layout.antt =====
-- The output of a SELECT of drivers/firebird/dbd_firebird.c: where `dbd_query` places the columns of a row and
-- their indicators in the buffer that it allocates, with the driver's own FB_ALIGN, which does
-- not look at the alignment.
pub mod Places
use libdbi_drivers.Prelude.{
  ℕ, ◌+◌, ◌*◌, ◌/◌, ◌%◌, Option, none, some, List, [], ◌∷◌, ltb, if◌then◌else◌, Bytes,
}
use libdbi_drivers.Firebird.Types.{FirebirdType, sql_varying}

-- The members of an XSQLVAR that the server fills; `type` without the bit for NULL, which is `nullable`.
pub record Column : Type 0 where
  pub name : Bytes
  pub type : FirebirdType
  pub sqllen : ℕ

-- `sqldata` and `sqlind`, from the start of the buffer.
pub record Place : Type 0 where
  pub sqldata : ℕ
  pub sqlind : ℕ

-- `((n+1) & ~1)`
abbrev pub fb_align : ℕ → ℕ
fb_align n = (n + 1) / 2 * 2

-- `length`; a text of varying size has two bytes for its own length, and one more.
abbrev pub length_of : FirebirdType → ℕ → ℕ
length_of sql_varying sqllen = sqllen + 3
length_of type sqllen = sqllen

abbrev pub size_of_short : ℕ
size_of_short = 2

-- One past the greatest value of a `short`, which `length` and `offset` are.
abbrev pub short_limit : ℕ
short_limit = 32768

-- From the offset of the next column on. `none` is an offset that a `short` does not hold: none of the
-- values on the way is greater than the last.
unfoldable pub place_columns : List Column → ℕ → Option (List Place)
place_columns [] offset = some []
place_columns (c ∷ columns) offset =
    let sqldata = fb_align offset in
    let sqlind = fb_align (sqldata + length_of c.type c.sqllen) in
    let next = sqlind + size_of_short in
    if ltb next short_limit
    then elim (place_columns columns next) [
      | none ↦ none
      | some places ↦ some (record { sqldata = sqldata; sqlind = sqlind } ∷ places)
    ]
    else none

-- `malloc(32768*num_cols)`
abbrev pub buffer_size : ℕ → ℕ
buffer_size num_cols = 32768 * num_cols
