-- ===== src/Msql/Types.antt =====
-- `_translate_msql_type` of drivers/msql/dbd_msql.c. The type codes are those of the mSQL library's
-- header; `other` is any code that no label names.
use libdbi_drivers.Prelude.{[], ◌∷◌}
use libdbi_drivers.Dbi.{
  Translated, translated, integer, decimal, string, datetime, integer_unsigned, integer_size1,
  integer_size2, integer_size3, integer_size8, decimal_size4, datetime_date, datetime_time,
}

pub data MsqlType : Type 0 where
  uint_type int_type uint64_type int64_type uint8_type int8_type uint16_type int16_type : MsqlType
  byte_type money_type ipv4_type cidr4_type cidr6_type text_type char_type : MsqlType
  date_type time_type real_type ident_type null_type other : MsqlType

unfoldable pub _translate_msql_type : MsqlType → Translated
_translate_msql_type uint_type = translated integer (integer_unsigned ∷ integer_size3 ∷ [])
_translate_msql_type int_type = translated integer (integer_size3 ∷ [])
_translate_msql_type uint64_type = translated integer (integer_unsigned ∷ integer_size8 ∷ [])
_translate_msql_type int64_type = translated integer (integer_size8 ∷ [])
_translate_msql_type uint8_type = translated integer (integer_unsigned ∷ integer_size1 ∷ [])
_translate_msql_type int8_type = translated integer (integer_size1 ∷ [])
_translate_msql_type uint16_type = translated integer (integer_unsigned ∷ integer_size2 ∷ [])
_translate_msql_type int16_type = translated integer (integer_size2 ∷ [])
_translate_msql_type byte_type = translated integer (integer_size1 ∷ [])
_translate_msql_type date_type = translated datetime (datetime_date ∷ [])
_translate_msql_type time_type = translated datetime (datetime_time ∷ [])
_translate_msql_type real_type = translated decimal (decimal_size4 ∷ [])
_translate_msql_type type = translated string []
