-- ===== src/Mysql/Rows/Values.antt =====
-- What a column's cell holds.
use libdbi_drivers.Prelude.{Bool, true, none, some, ◌≡◌, refl, Bytes}
use libdbi_drivers.Dbi.{FieldType, unset, integer, decimal, string, binary, datetime, Field, Libdbi}
use libdbi_drivers.Dbi.Numbers.{read_integer-some, read_decimal-some}
use libdbi_drivers.Dbi.Sized.{SizedAs, IsFilled}
use libdbi_drivers.Mysql.Rows.{read_value, read_cell}
use libdbi_drivers.Mysql.Types.{MysqlField, field_info}
use libdbi_drivers.Mysql.Types.Sized.{field_info-SizedAs}

module _ (lib : Libdbi) (include_null : Bool) where
  read_value-IsFilled :
      (t : FieldType) (f : Field) (raw : Bytes)
      → SizedAs t f.attribs
      → IsFilled (read_value lib include_null t f raw)
  unfolding read_value
  read_value-IsFilled integer f raw h = (read_integer-some lib _ raw h, refl)
  read_value-IsFilled decimal f raw h = (read_decimal-some lib _ raw h, refl)
  read_value-IsFilled string f raw h = ((_, refl), refl)
  read_value-IsFilled binary f raw h = ((_, refl), refl)
  read_value-IsFilled datetime f raw h = ((_, refl), refl)
  read_value-IsFilled unset f raw h = absurd h

  -- Whatever the server says of a column, a value that is not NULL is stored in its cell, and a
  -- NULL is flagged.
  pub mysql_read_cell_lem :
      (f : MysqlField) (raw : Bytes)
      → IsFilled (read_cell lib include_null (field_info f) (some raw))
        × ((read_cell lib include_null (field_info f) none).is_null ≡ true)
  unfolding read_cell
  mysql_read_cell_lem f raw = (read_value-IsFilled _ _ raw (field_info-SizedAs f), refl)
