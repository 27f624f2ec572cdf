-- ===== src/Pgsql/Rows.antt =====
-- `_get_row_data` of drivers/pgsql/dbd_pgsql.c. `PQgetvalue`, `PQgetisnull` and `PQgetlength` of
-- a column are its value: `none` is a NULL, and the bytes of a value are as many as its length.
pub mod Values
use libdbi_drivers.Prelude.{ℕ, Bool, true, false, Option, none, some, List, [], ◌∷◌, Bytes, length}
use libdbi_drivers.CString.{c_string}
use libdbi_drivers.Dbi.{
  FieldType, unset, integer, decimal, string, binary, datetime, is_integer_size, is_decimal_size,
  is_datetime_part, masked, Field, Data, d_string, d_datetime, Cell, Libdbi,
}
use libdbi_drivers.Dbi.Numbers.{read_integer, read_decimal}

-- `unescape` is `PQunescapeBytea`, which returns the bytes and their number.
module _ (lib : Libdbi) (unescape : Bytes → Bytes) where
  open lib use {Float, Time}

  -- The `switch` on the field type. `strdup` copies up to the first zero.
  unfoldable pub read_value : FieldType → Field → Bytes → Cell Float Time
  unfolding c_string
  read_value integer f raw = record {
    value = read_integer lib (masked is_integer_size f.attribs) raw;
    size = 0;
    is_null = false;
  }
  read_value decimal f raw = record {
    value = read_decimal lib (masked is_decimal_size f.attribs) raw;
    size = 0;
    is_null = false;
  }
  read_value string f raw = record {
    value = some (d_string (c_string raw));
    size = length raw;
    is_null = false;
  }
  read_value binary f raw = record {
    value = some (d_string (unescape raw));
    size = length (unescape raw);
    is_null = false;
  }
  read_value datetime f raw = record {
    value = some (d_datetime (lib.parse_datetime raw (masked is_datetime_part f.attribs)));
    size = 0;
    is_null = false;
  }
  read_value unset f raw = record { value = none; size = 0; is_null = false }

  -- One pass of the loop.
  unfoldable pub read_cell : Field → Option Bytes → Cell Float Time
  unfolding read_value
  read_cell f none = record { value = none; size = 0; is_null = true }
  read_cell f (some raw) = read_value f.type f raw

  -- `values` are the row's columns; the loop runs over the fields.
  unfoldable pub _get_row_data : List Field → List (Option Bytes) → Option (List (Cell Float Time))
  unfolding read_cell
  _get_row_data [] values = some []
  _get_row_data (f ∷ fs) [] = none
  _get_row_data (f ∷ fs) (v ∷ values) = elim (_get_row_data fs values) [
    | none ↦ none
    | some cells ↦ some (read_cell f v ∷ cells)
  ]
