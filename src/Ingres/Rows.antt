-- ===== src/Ingres/Rows.antt =====
-- The columns of a row in drivers/ingres/dbd_ingres.c: `ingres_field` and the loop of `ingres_results`
-- over the columns of one row, with the segments of long columns. `IIapi_convertData` and `timegm`
-- are parameters. `none` is an access outside of a block or through a null pointer.
pub mod Blobs
use libdbi_drivers.Prelude.{
  ℕ, ◌+◌, ◌*◌, Bool, true, false, Option, none, some, List, [], ◌∷◌, ◌++◌, leb, ltb, if◌then◌else◌,
  Bytes, length,
}
use libdbi_drivers.Prelude.Int.{ℤ}
use libdbi_drivers.CString.{c_string, chop_blanks}
use libdbi_drivers.Dbi.{Data, d_string, d_datetime, Cell}
use libdbi_drivers.Ingres.Date.{Tm, ingres_date}
use libdbi_drivers.Ingres.Types.{
  IngresType, iiapi_int, iiapi_flt, iiapi_logkey, iiapi_tabkey, iiapi_lbyte, iiapi_vbyte,
  iiapi_byte, iiapi_vch, iiapi_lvch, iiapi_txt, iiapi_chr, iiapi_cha, iiapi_ltxt, iiapi_ncha,
  iiapi_nvch, iiapi_lnvch, iiapi_dec, iiapi_mny, iiapi_dte, other,
}

-- A block that grows: what was written to it, `bloblen` bytes, and its size, `blobmax`.
pub record Blob : Type 0 where
  pub written : Bytes
  pub blobmax : ℕ

-- The size of the block after the test; it is doubled once.
abbrev pub resized : Blob → Bytes → ℕ
resized blob segment =
    if ltb blob.blobmax (length blob.written + length segment)
    then blob.blobmax * 2
    else blob.blobmax

-- A segment is appended, or written behind the end of the block.
unfoldable pub append_segment : Blob → Bytes → Option Blob
append_segment blob segment =
    if leb (length blob.written + length segment) (resized blob segment)
    then some (record { written = blob.written ++ segment; blobmax = resized blob segment })
    else none

-- The `do` loop, by the segments that `IIapi_getColumns` returns, to the last of them.
unfoldable pub append_segments : Blob → List Bytes → Option Blob
unfolding append_segment
append_segments blob [] = some blob
append_segments blob (segment ∷ segments) = elim (append_segment blob segment) [
  | none ↦ none
  | some blob' ↦ append_segments blob' segments
]

unfoldable pub fetch_blob : ℕ → List Bytes → Option Bytes
unfolding append_segments
fetch_blob ds_length segments =
    elim (append_segments (record { written = []; blobmax = ds_length }) segments) [
      | none ↦ none
      | some blob ↦ some blob.written
    ]

-- A `dv_value`: the bytes of a text, without the two of the length for the types that have one, or the
-- value that eight bytes of memory are for the union of libdbi.
pub data Value (Float : Type 0) : Type 0 where
  bytes : Bytes → Value Float
  native : Data Float ℤ → Value Float

-- A fetched column: NULL, a long column by its segments, or another.
pub data Column (Float : Type 0) : Type 0 where
  null : Column Float
  segments : ℕ → List Bytes → Column Float
  value : IngresType → Value Float → Column Float

module _ (Float : Type 0) (convert : IngresType → Bytes → Option Bytes) (timegm : Tm → ℤ) where
  abbrev pub unwritten : Cell Float ℤ
  unwritten = record { value = none; size = 0; is_null = false }

  abbrev pub text_cell : Bytes → Cell Float ℤ
  text_cell s = record { value = some (d_string s); size = length s; is_null = false }

  -- The types that are converted to a text first. A conversion that fails leaves the cell unwritten.
  unfoldable pub converted_cell : IngresType → Option Bytes → Option (Cell Float ℤ)
  unfolding ingres_date c_string chop_blanks
  converted_cell type none = some unwritten
  converted_cell iiapi_dte (some val) = elim (ingres_date timegm (c_string val)) [
    | none ↦ none
    | some time ↦ some (record { value = some (d_datetime time); size = 0; is_null = false })
  ]
  converted_cell iiapi_dec (some val) = some (text_cell (chop_blanks val))
  converted_cell iiapi_mny (some val) = some (text_cell (chop_blanks val))
  converted_cell type (some val) = some (text_cell val)

  -- `val[len] = 0` and the zero behind a copy are not part of the value.
  unfoldable pub ingres_field : IngresType → Value Float → Option (Cell Float ℤ)
  unfolding converted_cell
  ingres_field iiapi_ncha (bytes raw) = converted_cell iiapi_ncha (convert iiapi_ncha raw)
  ingres_field iiapi_nvch (bytes raw) = converted_cell iiapi_nvch (convert iiapi_nvch raw)
  ingres_field iiapi_dec (bytes raw) = converted_cell iiapi_dec (convert iiapi_dec raw)
  ingres_field iiapi_mny (bytes raw) = converted_cell iiapi_mny (convert iiapi_mny raw)
  ingres_field iiapi_dte (bytes raw) = converted_cell iiapi_dte (convert iiapi_dte raw)
  ingres_field iiapi_vch (bytes raw) = some (text_cell raw)
  ingres_field iiapi_vbyte (bytes raw) = some (text_cell raw)
  ingres_field iiapi_txt (bytes raw) = some (text_cell raw)
  ingres_field iiapi_byte (bytes raw) = some (text_cell raw)
  ingres_field iiapi_chr (bytes raw) = some (text_cell raw)
  ingres_field iiapi_cha (bytes raw) = some (text_cell raw)
  ingres_field iiapi_logkey (bytes raw) = some (text_cell raw)
  ingres_field iiapi_tabkey (bytes raw) = some (text_cell raw)
  ingres_field iiapi_int (native d) = some (record { value = some d; size = 0; is_null = false })
  ingres_field iiapi_flt (native d) = some (record { value = some d; size = 0; is_null = false })
  ingres_field type v = some unwritten

  unfoldable pub read_column : Column Float → Option (Cell Float ℤ)
  unfolding fetch_blob ingres_field
  read_column null = some (record { value = none; size = 0; is_null = true })
  read_column (segments ds_length ss) = elim (fetch_blob ds_length ss) [
    | none ↦ none
    | some blob ↦ some (text_cell blob)
  ]
  read_column (value type v) = ingres_field type v

  unfoldable pub read_row : List (Column Float) → Option (List (Cell Float ℤ))
  unfolding read_column
  read_row [] = some []
  read_row (c ∷ cs) = elim (read_column c) [
    | none ↦ none
    | some cell ↦ elim (read_row cs) [ none ↦ none | some cells ↦ some (cell ∷ cells) ]
  ]
