-- ===== src/Pgsql/Rows/Values.antt =====
-- What a column's cell holds.
use libdbi_drivers.Prelude.{ℕ, true, none, some, ◌≡◌, refl, Bytes}
use libdbi_drivers.Dbi.{FieldType, unset, integer, decimal, string, binary, datetime, Field, Libdbi}
use libdbi_drivers.Dbi.Numbers.{read_integer-some, read_decimal-some}
use libdbi_drivers.Dbi.Sized.{SizedAs, field, IsFilled}
use libdbi_drivers.Pgsql.Rows.{read_value, read_cell}
use libdbi_drivers.Pgsql.Types.{_translate_postgresql_type}
use libdbi_drivers.Pgsql.Types.Sized.{translate-IsSized}

module _ (lib : Libdbi) (unescape : Bytes → Bytes) where
  open lib use {Float, Time}

  read_value-IsFilled :
      (t : FieldType) (f : Field) (raw : Bytes)
      → SizedAs t f.attribs
      → IsFilled (read_value lib unescape t f raw)
  unfolding read_value
  read_value-IsFilled integer f raw h = (read_integer-some lib _ raw h, refl)
  read_value-IsFilled decimal f raw h = (read_decimal-some lib _ raw h, refl)
  read_value-IsFilled string f raw h = ((_, refl), refl)
  read_value-IsFilled binary f raw h = ((_, refl), refl)
  read_value-IsFilled datetime f raw h = ((_, refl), refl)
  read_value-IsFilled unset f raw h = absurd h

  -- Whatever type number a column has, a value that is not NULL is stored in its cell, and a NULL
  -- is flagged.
  pub pgsql_read_cell_lem :
      (oid : ℕ) (name raw : Bytes)
      → IsFilled (read_cell lib unescape (field name (_translate_postgresql_type oid)) (some raw))
        × ((read_cell lib unescape (field name (_translate_postgresql_type oid)) none).is_null
            ≡ true)
  unfolding read_cell
  pgsql_read_cell_lem oid name raw = (read_value-IsFilled _ _ raw (translate-IsSized oid), refl)
