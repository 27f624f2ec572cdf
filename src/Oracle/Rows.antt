-- ===== src/Oracle/Rows.antt =====
-- `_get_field_info`, `_get_row_data` and `_oradate_to_time_t` of drivers/oracle/dbd_oracle.c. What OCI
-- fetched for a column is its buffer; `mktime` is a parameter.
pub mod Dates
pub mod Padded
use libdbi_drivers.Prelude.{
  ℕ, zero, suc, ◌+◌, ◌-◌, ◌*◌, ◌==◌, Bool, true, false, Option, none, some, List, [], ◌∷◌, leb,
  if◌then◌else◌, Bytes, length,
}
use libdbi_drivers.Prelude.Int.{ℤ, pos, negsuc, cast}
use libdbi_drivers.CString.{c_string, chop_blanks}
use libdbi_drivers.CString.Number.{atol}
use libdbi_drivers.Dbi.{
  FieldType, unset, integer, decimal, string, binary, datetime, Field, Data, d_longlong, d_double,
  d_string, d_datetime, Cell,
}
use libdbi_drivers.Dbi.Sized.{field}
use libdbi_drivers.Oracle.Types.{OracleType, _translate_oracle_type}

-- A `struct tm`, where the other members are 0.
pub record Tm : Type 0 where
  pub tm_sec : ℤ
  pub tm_min : ℤ
  pub tm_hour : ℤ
  pub tm_mday : ℤ
  pub tm_mon : ℤ
  pub tm_year : ℤ

-- The difference of two numbers of a byte.
abbrev pub minus : ℕ → ℕ → ℤ
minus a b = if leb b a then pos (a - b) else negsuc (b - a - 1)

-- `(a-100)*100 + (b-100)`
abbrev pub century_and_year : ℕ → ℕ → ℤ
century_and_year a b = minus (a * 100 + b) 10100

-- The seven bytes of an Oracle date; `none` is a buffer that is shorter. The bytes are below 128.
unfoldable pub broken_down : Bytes → Option Tm
broken_down (b0 ∷ b1 ∷ b2 ∷ b3 ∷ b4 ∷ b5 ∷ b6 ∷ rest) = some (record {
  tm_sec = minus b6 1;
  tm_min = minus b5 1;
  tm_hour = minus b4 1;
  tm_mday = pos b3;
  tm_mon = pos b2;
  tm_year = century_and_year b0 b1;
})
broken_down obuff = none

-- A column of the statement's description.
pub record Described : Type 0 where
  pub otype : OracleType
  pub scale : ℕ
  pub col_name : Bytes

abbrev pub _get_field_info : List Described → List Field
_get_field_info [] = []
_get_field_info (c ∷ cs) =
    field c.col_name (_translate_oracle_type c.otype c.scale) ∷ _get_field_info cs

-- A fetched column: its size, OCI_ATTR_DATA_SIZE, and the memory of its buffer.
pub record Fetched : Type 0 where
  pub data_size : ℕ
  pub buffer : Bytes

-- `memcpy` of a number of bytes; `none` is a read behind the end of the memory.
unfoldable pub copied : ℕ → Bytes → Option Bytes
copied zero s = some []
copied (suc n) [] = none
copied (suc n) (c ∷ s) = elim (copied n s) [ none ↦ none | some s' ↦ some (c ∷ s') ]

module _ (Float Time : Type 0) (to_double : Bytes → Float) (mktime : Tm → Time) (chop : Bool) where
  unfoldable pub _oradate_to_time_t : Bytes → Option Time
  unfolding broken_down
  _oradate_to_time_t obuff = elim (broken_down obuff) [ none ↦ none | some tmt ↦ some (mktime tmt) ]

  abbrev pub number_cell : Data Float Time → Cell Float Time
  number_cell d = record { value = some d; size = 0; is_null = false }

  abbrev pub text_cell : Bytes → ℕ → Cell Float Time
  text_cell s n = record { value = some (d_string s); size = n; is_null = false }

  -- `chop` says that the option oracle_chop_blanks is 1. The blanks are chopped off the end of the
  -- `data_size` characters, if the first of them is no zero.
  abbrev pub string_cell : Bytes → Cell Float Time
  string_cell [] = text_cell [] 0
  string_cell (c ∷ s) =
      let t = if chop then (if c == 0 then c ∷ s else chop_blanks (c ∷ s)) else c ∷ s in
      text_cell t (length t)

  -- The second loop.
  unfoldable pub read_cell : FieldType → Fetched → Option (Cell Float Time)
  unfolding atol cast c_string copied chop_blanks _oradate_to_time_t
  read_cell integer f = some (number_cell (d_longlong (cast 64 (atol (c_string f.buffer)))))
  read_cell decimal f = some (number_cell (d_double (to_double (c_string f.buffer))))
  read_cell string f = elim (copied f.data_size f.buffer) [
    | none ↦ none
    | some s ↦ some (string_cell s)
  ]
  read_cell binary f = elim (copied f.data_size f.buffer) [
    | none ↦ none
    | some s ↦ some (text_cell s f.data_size)
  ]
  read_cell datetime f = elim (_oradate_to_time_t f.buffer) [
    | none ↦ none
    | some time ↦ some (number_cell (d_datetime time))
  ]
  read_cell unset f = some (record { value = none; size = 0; is_null = false })

  unfoldable pub _get_row_data : List Field → List Fetched → Option (List (Cell Float Time))
  unfolding read_cell
  _get_row_data [] cols = some []
  _get_row_data (f ∷ fs) [] = none
  _get_row_data (f ∷ fs) (c ∷ cols) = elim (read_cell f.type c) [
    | none ↦ none
    | some cell ↦ elim (_get_row_data fs cols) [ none ↦ none | some cells ↦ some (cell ∷ cells) ]
  ]
