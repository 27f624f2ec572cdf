-- ===== src/Firebird/Types.antt =====
-- `_translate_firebird_type` of drivers/firebird/utility.c. The type codes are those of Firebird's header;
-- `other` is any code that no label names: the `switch` has no default.
pub mod Sized
use libdbi_drivers.Prelude.{[], ◌∷◌}
use libdbi_drivers.Dbi.{
  Translated, translated, unset, integer, decimal, string, binary, datetime, integer_size2,
  integer_size3, integer_size8, decimal_size4, decimal_size8, string_fixedsize, datetime_date,
  datetime_time,
}

pub data FirebirdType : Type 0 where
  sql_text sql_varying sql_short sql_long sql_int64 sql_float sql_double : FirebirdType
  sql_timestamp sql_type_time sql_type_date sql_blob sql_array other : FirebirdType

unfoldable pub _translate_firebird_type : FirebirdType → Translated
_translate_firebird_type sql_text = translated string (string_fixedsize ∷ [])
_translate_firebird_type sql_varying = translated string []
_translate_firebird_type sql_short = translated integer (integer_size2 ∷ [])
_translate_firebird_type sql_long = translated integer (integer_size3 ∷ [])
_translate_firebird_type sql_int64 = translated integer (integer_size8 ∷ [])
_translate_firebird_type sql_float = translated decimal (decimal_size4 ∷ [])
_translate_firebird_type sql_double = translated decimal (decimal_size8 ∷ [])
_translate_firebird_type sql_timestamp = translated datetime (datetime_time ∷ datetime_date ∷ [])
_translate_firebird_type sql_type_time = translated datetime (datetime_time ∷ [])
_translate_firebird_type sql_type_date = translated datetime (datetime_date ∷ [])
_translate_firebird_type sql_blob = translated binary []
_translate_firebird_type sql_array = translated binary []
_translate_firebird_type other = translated unset []
