-- ===== src/Sqlite3/Rows.antt =====
-- `_get_row_data` of drivers/sqlite3/dbd_sqlite3.c. `sqlite3_get_table` returns
-- one array of strings: the column names, then the rows; a NULL is a null pointer, `none`.
pub mod Values
pub mod InBounds
use libdbi_drivers.Prelude.{
  ℕ, ◌+◌, ◌*◌, Bool, true, false, Option, none, some, List, [], ◌∷◌, Bytes, length, get_elem?,
}
use libdbi_drivers.Dbi.{
  FieldType, unset, integer, decimal, string, binary, datetime, integer_size1, integer_size8,
  decimal_size4, decimal_size8, datetime_date, datetime_time, Field, Data, d_string, d_datetime,
  Cell, Libdbi,
}
use libdbi_drivers.Dbi.Numbers.{read_integer, read_decimal}

module _ (lib : Libdbi) where
  open lib use {Float, Time}

  -- The `switch` on the field type, for a value that is there.
  unfoldable pub read_value : FieldType → Field → Bytes → Cell Float Time
  read_value integer f raw = record {
    value = read_integer lib (lib.isolate_attrib f.attribs integer_size1 integer_size8) raw;
    size = 0;
    is_null = false;
  }
  read_value decimal f raw = record {
    value = read_decimal lib (lib.isolate_attrib f.attribs decimal_size4 decimal_size8) raw;
    size = 0;
    is_null = false;
  }
  read_value string f raw = record {
    value = some (d_string raw);
    size = length raw;
    is_null = false;
  }
  read_value binary f raw = record {
    value = some (d_string (lib.decode_binary raw));
    size = length (lib.decode_binary raw);
    is_null = false;
  }
  read_value datetime f raw = record {
    value = some (
        d_datetime
          (lib.parse_datetime raw (lib.isolate_attrib f.attribs datetime_date datetime_time)));
    size = 0;
    is_null = false;
  }
  read_value unset f raw = record {
    value = some (d_string raw);
    size = length raw;
    is_null = false;
  }

  -- One pass of the loop. A null pointer leaves the value unwritten, and its null flag unset.
  unfoldable pub read_cell : Field → Option Bytes → Cell Float Time
  unfolding read_value
  read_cell f none = record { value = none; size = 0; is_null = false }
  read_cell f (some raw) = read_value f.type f raw

  -- The loop over the fields from `curfield` on. `none` is a read behind the end of the array.
  unfoldable pub read_fields :
      List (Option Bytes) → ℕ → ℕ → ℕ → List Field → Option (List (Cell Float Time))
  unfolding read_cell
  read_fields table numfields rowidx curfield [] = some []
  read_fields table numfields rowidx curfield (f ∷ fs) =
      let rest = read_fields table numfields rowidx (curfield + 1) fs in
      elim (get_elem? table (curfield + (rowidx + 1) * numfields)) [
        | none ↦ none
        | some raw ↦ elim rest [ none ↦ none | some cells ↦ some (read_cell f raw ∷ cells) ]
      ]

  unfoldable pub _get_row_data :
      List (Option Bytes) → List Field → ℕ → Option (List (Cell Float Time))
  unfolding read_fields
  _get_row_data table fields rowidx = read_fields table (length fields) rowidx 0 fields
