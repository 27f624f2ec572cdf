-- ===== src/Sqlite/Types.antt =====
-- The field types of drivers/sqlite/dbd_sqlite.h, which are those of the SQLite3 driver, and
-- `_translate_sqlite_type` of drivers/sqlite/dbd_sqlite.c.
pub mod Copied
use libdbi_drivers.Prelude.{[], ◌∷◌}
use libdbi_drivers.Dbi.{
  Translated, translated, integer, decimal, string, binary, datetime, integer_unsigned,
  integer_size1, integer_size2, integer_size3, integer_size4, integer_size8, decimal_size4,
  decimal_size8, datetime_date, datetime_time,
}
use libdbi_drivers.Sqlite3.Types.{
  FieldKind, tiny, short_kind, long_kind, float_kind, double_kind, timestamp, longlong, int24,
  date_kind, time_kind, datetime_kind, year, tiny_blob, medium_blob, long_blob, blob,
}

unfoldable pub _translate_sqlite_type : FieldKind → Translated
_translate_sqlite_type tiny = translated integer (integer_size1 ∷ [])
_translate_sqlite_type year = translated integer (integer_unsigned ∷ integer_size2 ∷ [])
_translate_sqlite_type short_kind = translated integer (integer_size2 ∷ [])
_translate_sqlite_type int24 = translated integer (integer_size3 ∷ [])
_translate_sqlite_type long_kind = translated integer (integer_size4 ∷ [])
_translate_sqlite_type longlong = translated integer (integer_size8 ∷ [])
_translate_sqlite_type float_kind = translated decimal (decimal_size4 ∷ [])
_translate_sqlite_type double_kind = translated decimal (decimal_size8 ∷ [])
_translate_sqlite_type date_kind = translated datetime (datetime_date ∷ [])
_translate_sqlite_type time_kind = translated datetime (datetime_time ∷ [])
_translate_sqlite_type datetime_kind = translated datetime (datetime_date ∷ datetime_time ∷ [])
_translate_sqlite_type timestamp = translated datetime (datetime_date ∷ datetime_time ∷ [])
_translate_sqlite_type tiny_blob = translated binary []
_translate_sqlite_type medium_blob = translated binary []
_translate_sqlite_type long_blob = translated binary []
_translate_sqlite_type blob = translated binary []
_translate_sqlite_type kind = translated string []
