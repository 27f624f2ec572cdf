-- ===== src/Sqlite3/Rows/Values.antt =====
-- What a column's cell holds.
use libdbi_drivers.Prelude.{ℕ, Bool, false, some, List, ◌∷◌, ◌≡◌, refl, Bytes}
use libdbi_drivers.CString.Number.{AreDigits, integer_text, integer_value}
use libdbi_drivers.Dbi.{
  FieldType, unset, integer, decimal, string, binary, datetime, Field, Data, is_integer_size,
  masked, Libdbi, IsolatesAttribs,
}
use libdbi_drivers.Dbi.Numbers.{
  read_integer-some, read_decimal-some, FitsSize, integer_data, read_integer-integer_text,
}
use libdbi_drivers.Dbi.Sized.{SizedAs, field}
use libdbi_drivers.Sqlite3.Rows.{read_value, read_cell}
use libdbi_drivers.Sqlite3.Types.{FieldKind, _translate_sqlite3_type}
use libdbi_drivers.Sqlite3.Types.Sized.{translate-IsSized}

module _ (lib : Libdbi) (law : IsolatesAttribs lib) where
  open lib use {Float, Time}

  read_value-some :
      (t : FieldType) (f : Field) (raw : Bytes)
      → SizedAs t f.attribs
      → (d : Data Float Time) × ((read_value lib t f raw).value ≡ some d)
  unfolding read_value
  read_value-some integer f raw h = rw (law.integers f.attribs) (read_integer-some lib _ raw h)
  read_value-some decimal f raw h = rw (law.decimals f.attribs) (read_decimal-some lib _ raw h)
  read_value-some string f raw h = (_, refl)
  read_value-some binary f raw h = (_, refl)
  read_value-some datetime f raw h = (_, refl)
  read_value-some unset f raw h = (_, refl)

  -- Whatever field type SQLite's column has, a value that is not NULL is stored in its cell.
  pub read_cell-some :
      (kind : FieldKind) (name raw : Bytes)
      → (d : Data Float Time) × ((read_cell lib
            (field name (_translate_sqlite3_type kind))
            (some raw)).value
          ≡ some d)
  unfolding read_cell
  read_cell-some kind name raw = read_value-some _ _ raw (translate-IsSized kind)

  -- An integer column stores the number that its text denotes, wherever the size can hold it.
  pub read_cell-integer_text :
      (f : Field) (minus : Bool) (d : ℕ) (ds : List ℕ)
      → f.type ≡ integer
      → AreDigits (d ∷ ds)
      → FitsSize lib (masked is_integer_size f.attribs) (integer_value minus (d ∷ ds))
      → read_cell lib f (some (integer_text minus (d ∷ ds))) ≡ record {
        value = integer_data lib (masked is_integer_size f.attribs) (integer_value minus (d ∷ ds));
        size = 0;
        is_null = false;
      }
  unfolding read_cell
  read_cell-integer_text f minus d ds e h fits =
      rw (e, read_value, law.integers f.attribs)
        (λ i. record {
          value = read_integer-integer_text lib _ minus d ds h fits i;
          size = 0;
          is_null = false;
        })
