-- ===== src/Sqlite3/Types.antt =====
-- The field types of drivers/sqlite3/dbd_sqlite3.h and `_translate_sqlite3_type`.
pub mod Sized
use libdbi_drivers.Prelude.{[], ◌∷◌}
use libdbi_drivers.Dbi.{
  Translated, translated, integer, decimal, string, binary, datetime, integer_unsigned,
  integer_size1, integer_size2, integer_size3, integer_size4, integer_size8, decimal_size4,
  decimal_size8, datetime_date, datetime_time,
}

-- `enum enum_field_types`, without the prefix FIELD_TYPE.
pub data FieldKind : Type 0 where
  decimal_kind tiny short_kind long_kind float_kind double_kind null_kind timestamp : FieldKind
  longlong int24 date_kind time_kind datetime_kind year newdate : FieldKind
  enum_kind set_kind tiny_blob medium_blob long_blob blob var_string string_kind : FieldKind

unfoldable pub _translate_sqlite3_type : FieldKind → Translated
_translate_sqlite3_type tiny = translated integer (integer_size1 ∷ [])
_translate_sqlite3_type year = translated integer (integer_unsigned ∷ integer_size2 ∷ [])
_translate_sqlite3_type short_kind = translated integer (integer_size2 ∷ [])
_translate_sqlite3_type int24 = translated integer (integer_size3 ∷ [])
_translate_sqlite3_type long_kind = translated integer (integer_size4 ∷ [])
_translate_sqlite3_type longlong = translated integer (integer_size8 ∷ [])
_translate_sqlite3_type float_kind = translated decimal (decimal_size4 ∷ [])
_translate_sqlite3_type double_kind = translated decimal (decimal_size8 ∷ [])
_translate_sqlite3_type date_kind = translated datetime (datetime_date ∷ [])
_translate_sqlite3_type time_kind = translated datetime (datetime_time ∷ [])
_translate_sqlite3_type datetime_kind = translated datetime (datetime_date ∷ datetime_time ∷ [])
_translate_sqlite3_type timestamp = translated datetime (datetime_date ∷ datetime_time ∷ [])
_translate_sqlite3_type tiny_blob = translated binary []
_translate_sqlite3_type medium_blob = translated binary []
_translate_sqlite3_type long_blob = translated binary []
_translate_sqlite3_type blob = translated binary []
_translate_sqlite3_type kind = translated string []
