-- ===== src/Mysql/Types.antt =====
-- `_translate_mysql_type` and `_get_field_info` of drivers/mysql/dbd_mysql.c, for a client library that
-- defines FIELD_TYPE_BIT and FIELD_TYPE_NEWDECIMAL. The type codes are those of the library's
-- header; `other` is any code that no label names.
pub mod Sized
use libdbi_drivers.Prelude.{ℕ, Bool, true, false, List, [], ◌∷◌, ◌++◌, ◌==◌, if◌then◌else◌, Bytes}
use libdbi_drivers.Dbi.{
  FieldType, Translated, translated, integer, decimal, string, binary, datetime, integer_unsigned,
  integer_size1, integer_size2, integer_size3, integer_size4, integer_size8, decimal_size4,
  decimal_size8, datetime_date, datetime_time, Field,
}

pub data MysqlType : Type 0 where
  tiny year short_type int24 long_type bit longlong float_type double_type : MysqlType
  date_type time_type datetime_type timestamp : MysqlType
  var_string string_type tiny_blob medium_blob long_blob blob : MysqlType
  newdecimal decimal_type enum_type set_type other : MysqlType

-- The members of `MYSQL_FIELD` that are read. `is_unsigned` is `flags & UNSIGNED_FLAG`.
pub record MysqlField : Type 0 where
  pub name : Bytes
  pub type : MysqlType
  pub charsetnr : ℕ
  pub is_unsigned : Bool

-- The labels of the string types and `default`: the binary character set makes a string binary.
abbrev by_charset : ℕ → Translated
by_charset charsetnr = if charsetnr == 63 then translated binary [] else translated string []

unfoldable pub translate_type : MysqlType → ℕ → Translated
translate_type tiny charsetnr = translated integer (integer_size1 ∷ [])
translate_type year charsetnr = translated integer (integer_unsigned ∷ integer_size2 ∷ [])
translate_type short_type charsetnr = translated integer (integer_size2 ∷ [])
translate_type int24 charsetnr = translated integer (integer_size3 ∷ [])
translate_type long_type charsetnr = translated integer (integer_size4 ∷ [])
translate_type bit charsetnr = translated integer (integer_unsigned ∷ integer_size8 ∷ [])
translate_type longlong charsetnr = translated integer (integer_size8 ∷ [])
translate_type float_type charsetnr = translated decimal (decimal_size4 ∷ [])
translate_type double_type charsetnr = translated decimal (decimal_size8 ∷ [])
translate_type date_type charsetnr = translated datetime (datetime_date ∷ [])
translate_type time_type charsetnr = translated datetime (datetime_time ∷ [])
translate_type datetime_type charsetnr = translated datetime (datetime_date ∷ datetime_time ∷ [])
translate_type timestamp charsetnr = translated datetime (datetime_date ∷ datetime_time ∷ [])
translate_type newdecimal charsetnr = translated string []
translate_type decimal_type charsetnr = translated string []
translate_type enum_type charsetnr = translated string []
translate_type set_type charsetnr = translated string []
translate_type type charsetnr = by_charset charsetnr

unfoldable pub _translate_mysql_type : MysqlField → Translated
unfolding translate_type
_translate_mysql_type field = translate_type field.type field.charsetnr

abbrev is_integer : FieldType → Bool
is_integer integer = true
is_integer t = false

-- One pass of the loop of `_get_field_info`.
unfoldable pub field_info : MysqlField → Field
unfolding _translate_mysql_type
field_info f =
    let t = _translate_mysql_type f in
    record {
      name = f.name;
      type = t.type;
      attribs =
          if is_integer t.type
          then (if f.is_unsigned then t.attribs ++ integer_unsigned ∷ [] else t.attribs)
          else t.attribs;
    }

unfoldable pub _get_field_info : List MysqlField → List Field
unfolding field_info
_get_field_info [] = []
_get_field_info (f ∷ fs) = field_info f ∷ _get_field_info fs
