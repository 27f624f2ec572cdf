-- ===== src/Msql/Rows.antt =====
-- `_get_row_data` of drivers/msql/dbd_msql.c. A column of the fetched row is `none` for a null pointer.
pub mod Values
use libdbi_drivers.Prelude.{Bool, true, false, Option, none, some, List, [], ◌∷◌, Bytes, length}
use libdbi_drivers.Dbi.{
  FieldType, unset, integer, decimal, string, binary, datetime, integer_size1, integer_size8,
  decimal_size4, decimal_size8, datetime_date, datetime_time, Field, d_string, d_datetime, Cell,
  Libdbi,
}
use libdbi_drivers.Dbi.Numbers.{read_integer, read_decimal}

module _ (lib : Libdbi) where
  open lib use {Float, Time}

  -- The `switch` on the field type; a type without a label is read as a string.
  unfoldable pub read_value : FieldType → Field → Bytes → Cell Float Time
  read_value integer f raw = record {
    value = read_integer lib (lib.isolate_attrib f.attribs integer_size1 integer_size8) raw;
    size = 0;
    is_null = false;
  }
  read_value decimal f raw = record {
    value = read_decimal lib (lib.isolate_attrib f.attribs decimal_size4 decimal_size8) raw;
    size = 0;
    is_null = false;
  }
  read_value datetime f raw = record {
    value = some (
        d_datetime
          (lib.parse_datetime raw (lib.isolate_attrib f.attribs datetime_date datetime_time)));
    size = 0;
    is_null = false;
  }
  read_value t f raw = record { value = some (d_string raw); size = length raw; is_null = false }

  -- One pass of the loop. The null flag of a null pointer is set, but the `switch` follows all the
  -- same and reads through the pointer: `none`.
  unfoldable pub read_cell : Field → Option Bytes → Option (Cell Float Time)
  unfolding read_value
  read_cell f none = none
  read_cell f (some raw) = some (read_value f.type f raw)

  -- `none` is also a row with fewer columns than the result has fields.
  unfoldable pub _get_row_data : List Field → List (Option Bytes) → Option (List (Cell Float Time))
  unfolding read_cell
  _get_row_data [] values = some []
  _get_row_data (f ∷ fs) [] = none
  _get_row_data (f ∷ fs) (v ∷ values) =
      let rest = _get_row_data fs values in
      elim (read_cell f v) [
        | none ↦ none
        | some cell ↦ elim rest [ none ↦ none | some cells ↦ some (cell ∷ cells) ]
      ]
