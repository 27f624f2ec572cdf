-- ===== src/Freetds/Rows.antt =====
-- The rows of a result in drivers/freetds/dbd_freetds.c: `_dbd_freetds_buffers_binding`, which converts the row that
-- was fetched last before it binds buffers for the next, in the loop of `dbd_query` over the fetches.
-- `cs_convert` is a parameter. `none` is a write behind the end of a block, a read of memory that was
-- not written, or a member of the union that was not stored. A column that is NULL, for which nothing is
-- stored, is not modelled.
pub mod Money
use libdbi_drivers.Prelude.{
  ℕ, false, Option, none, some, List, [], ◌∷◌, leb, if◌then◌else◌, Bytes, length,
}
use libdbi_drivers.Prelude.Int.{ℤ, cast}
use libdbi_drivers.CString.{c_string, split_at}
use libdbi_drivers.Dbi.{
  datetime_date, datetime_time, Data, d_char, d_short, d_long, d_longlong, d_float, d_double,
  d_string, d_datetime, Cell, Libdbi,
}
use libdbi_drivers.Freetds.Types.{
  CsType, cs_long, cs_int, cs_smallint, cs_bit, cs_tinyint, cs_datetime, cs_datetime4, cs_real,
  cs_float, cs_char, cs_text, cs_varchar, cs_money, cs_money4, cs_numeric, cs_decimal, cs_unique,
  cs_image, cs_binary, cs_varbinary, cs_unichar, other, Datafmt,
}

-- What `ct_fetch` stores at the address that is bound for a column: a number or a floating-point number
-- in the union, or the bytes of a block or, for a date, of the union.
pub data Fetched (Float : Type 0) : Type 0 where
  whole : ℤ → Fetched Float
  real : Float → Fetched Float
  bytes : Bytes → Fetched Float

-- `sizeof(CS_NUMERIC_TYPE)`: the size of an integer, since the name is that of a type's number.
abbrev pub size_of_type_code : ℕ
size_of_type_code = 4

-- A row of the result, before and after its conversion.
pub data Row (Float Time : Type 0) : Type 0 where
  raw : List (Fetched Float) → Row Float Time
  done : List (Cell Float Time) → Row Float Time

-- `to_numeric` and `to_text` are `cs_convert` to CS_NUMERIC_TYPE and to CS_TEXT_TYPE; `none` is a failure.
module _ (lib : Libdbi) (to_numeric to_text : Bytes → Option Bytes) where
  open lib use {Float, Time}

  abbrev cell : Data Float Time → ℕ → Option (Cell Float Time)
  cell d n = some (record { value = some d; size = n; is_null = false })

  -- `*orig = addr`; without a conversion, the new block is not written.
  abbrev pub money_cell : ℕ → Option Bytes → Option (Cell Float Time)
  money_cell n none = some (record { value = none; size = n; is_null = false })
  money_cell n (some s) = if leb (length s) size_of_type_code then cell (d_string s) n else none

  abbrev datetime_cell : ℕ → Option Bytes → Option (Cell Float Time)
  datetime_cell n none = none
  datetime_cell n (some s) =
      cell (d_datetime (lib.parse_datetime s (datetime_time ∷ datetime_date ∷ []))) n

  abbrev text_cell : Bytes → Option (Cell Float Time)
  text_cell s = cell (d_string s) (length s)

  -- `_dbd_decode_binary` reads up to a zero, which is not written behind the bytes: without one among
  -- them it reads on behind them.
  abbrev decoded : Bytes → Option (Cell Float Time)
  decoded s = elim (split_at 0 s) [
    | none ↦ none
    | some (text, rest) ↦ text_cell (lib.decode_binary text)
  ]

  -- A column of the last row: `field_sizes` is `maxlength`, and the union is what was stored, where the
  -- `switch` on the type has no label.
  unfoldable pub convert : CsType → ℕ → Fetched Float → Option (Cell Float Time)
  unfolding cast c_string split_at
  convert cs_money n (bytes s) = money_cell n (to_numeric s)
  convert cs_money4 n (bytes s) = money_cell n (to_numeric s)
  convert cs_datetime n (bytes s) = datetime_cell n (to_text s)
  convert cs_datetime4 n (bytes s) = datetime_cell n (to_text s)
  convert cs_unique n (bytes s) = decoded s
  convert cs_image n (bytes s) = decoded s
  convert cs_binary n (bytes s) = decoded s
  convert cs_varbinary n (bytes s) = decoded s
  convert cs_unichar n (bytes s) = decoded s
  convert cs_char n (bytes s) = text_cell (c_string s)
  convert cs_text n (bytes s) = text_cell (c_string s)
  convert cs_varchar n (bytes s) = text_cell (c_string s)
  convert cs_numeric n (bytes s) = cell (d_string s) n
  convert cs_decimal n (bytes s) = cell (d_string s) n
  convert other n (bytes s) = cell (d_string s) n
  convert cs_long n (whole z) = cell (d_longlong (cast 64 z)) n
  convert cs_int n (whole z) = cell (d_long (cast 32 z)) n
  convert cs_smallint n (whole z) = cell (d_short (cast 16 z)) n
  convert cs_bit n (whole z) = cell (d_char (cast 8 z)) n
  convert cs_tinyint n (whole z) = cell (d_char (cast 8 z)) n
  convert cs_real n (real x) = cell (d_float x) n
  convert cs_float n (real x) = cell (d_double x) n
  convert type n fetched = none

  unfoldable pub convert_row : List Datafmt → List (Fetched Float) → Option (List (Cell Float Time))
  unfolding convert
  convert_row [] fetched = some []
  convert_row (f ∷ datafmt) [] = none
  convert_row (f ∷ datafmt) (x ∷ fetched) = elim (convert f.datatype f.maxlength x) [
    | none ↦ none
    | some c ↦ elim (convert_row datafmt fetched) [ none ↦ none | some cells ↦ some (c ∷ cells) ]
  ]

  abbrev finished :
      List (Row Float Time) → Option (List (Cell Float Time)) → Option (List (Row Float Time))
  finished rows none = none
  finished rows (some cells) = some (done cells ∷ rows)

  -- `result->rows`, the last first. libdbi's `_dbd_row_finalize` stores the row with number n at the index
  -- n + 1, so that `numrows_matched` is the index of the row that was saved last, if there is one. A row
  -- that is converted holds no memory of the types before.
  unfoldable pub _dbd_freetds_buffers_binding :
      List Datafmt → List (Row Float Time) → Option (List (Row Float Time))
  unfolding convert_row
  _dbd_freetds_buffers_binding datafmt [] = some []
  _dbd_freetds_buffers_binding datafmt (raw fetched ∷ rows) =
      finished rows (convert_row datafmt fetched)
  _dbd_freetds_buffers_binding datafmt (done cells ∷ rows) = none

  -- The fetches that succeed: each row is saved, and buffers are bound for the next.
  unfoldable pub save_rows :
      List Datafmt
      → List (List (Fetched Float))
      → List (Row Float Time)
      → Option (List (Row Float Time))
  unfolding _dbd_freetds_buffers_binding
  save_rows datafmt [] rows = some rows
  save_rows datafmt (fetched ∷ fetches) rows =
      elim (_dbd_freetds_buffers_binding datafmt (raw fetched ∷ rows)) [
        | none ↦ none
        | some rows' ↦ save_rows datafmt fetches rows'
      ]

  -- Buffers are bound once before the first fetch.
  unfoldable pub fetch_rows :
      List Datafmt → List (List (Fetched Float)) → Option (List (Row Float Time))
  unfolding save_rows _dbd_freetds_buffers_binding
  fetch_rows datafmt fetches = elim (_dbd_freetds_buffers_binding datafmt []) [
    | none ↦ none
    | some rows ↦ save_rows datafmt fetches rows
  ]
