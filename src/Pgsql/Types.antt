-- ===== src/Pgsql/Types.antt =====
-- `_translate_postgresql_type` of drivers/pgsql/dbd_pgsql.c, on the type numbers of dbd_pgsql.h.
pub mod Sized
use libdbi_drivers.Prelude.{ℕ, Bool, false, ◌||◌, List, [], ◌∷◌, ◌==◌, if◌then◌else◌}
use libdbi_drivers.Dbi.{
  Translated, translated, integer, decimal, string, binary, datetime, integer_unsigned,
  integer_size1, integer_size2, integer_size4, integer_size8, decimal_size4, decimal_size8,
  datetime_date, datetime_time,
}

-- Several `case` labels of one branch.
abbrev one_of : ℕ → List ℕ → Bool
one_of oid [] = false
one_of oid (label ∷ labels) = oid == label || one_of oid labels

abbrev pub pg_type_bytea : ℕ
pg_type_bytea = 17

abbrev pub pg_type_char : ℕ
pg_type_char = 18

abbrev pub pg_type_name : ℕ
pg_type_name = 19

abbrev pub pg_type_int8 : ℕ
pg_type_int8 = 20

abbrev pub pg_type_int2 : ℕ
pg_type_int2 = 21

abbrev pub pg_type_int4 : ℕ
pg_type_int4 = 23

abbrev pub pg_type_text : ℕ
pg_type_text = 25

abbrev pub pg_type_oid : ℕ
pg_type_oid = 26

abbrev pub pg_type_char2 : ℕ
pg_type_char2 = 409

abbrev pub pg_type_char4 : ℕ
pg_type_char4 = 410

abbrev pub pg_type_char8 : ℕ
pg_type_char8 = 411

abbrev pub pg_type_float4 : ℕ
pg_type_float4 = 700

abbrev pub pg_type_float8 : ℕ
pg_type_float8 = 701

abbrev pub pg_type_bpchar : ℕ
pg_type_bpchar = 1042

abbrev pub pg_type_varchar : ℕ
pg_type_varchar = 1043

abbrev pub pg_type_date : ℕ
pg_type_date = 1082

abbrev pub pg_type_time : ℕ
pg_type_time = 1083

abbrev pub pg_type_timestamp : ℕ
pg_type_timestamp = 1114

abbrev pub pg_type_timestamptz : ℕ
pg_type_timestamptz = 1184

abbrev pub pg_type_timetz : ℕ
pg_type_timetz = 1266

unfoldable pub _translate_postgresql_type : ℕ → Translated
_translate_postgresql_type oid =
    if oid == pg_type_char
    then translated integer (integer_size1 ∷ [])
    else if oid == pg_type_int2
    then translated integer (integer_size2 ∷ [])
    else if oid == pg_type_int4
    then translated integer (integer_size4 ∷ [])
    else if oid == pg_type_int8
    then translated integer (integer_size8 ∷ [])
    else if oid == pg_type_oid
    then translated integer (integer_size8 ∷ integer_unsigned ∷ [])
    else if oid == pg_type_float4
    then translated decimal (decimal_size4 ∷ [])
    else if oid == pg_type_float8
    then translated decimal (decimal_size8 ∷ [])
    else if oid == pg_type_date
    then translated datetime (datetime_date ∷ [])
    else if one_of oid (pg_type_time ∷ pg_type_timetz ∷ [])
    then translated datetime (datetime_time ∷ [])
    else if one_of oid (pg_type_timestamp ∷ pg_type_timestamptz ∷ [])
    then translated datetime (datetime_date ∷ datetime_time ∷ [])
    else if one_of oid (
        pg_type_name ∷ pg_type_text ∷ pg_type_char2 ∷ pg_type_char4 ∷ pg_type_char8 ∷ pg_type_bpchar
        ∷ pg_type_varchar ∷ [])
    then translated string []
    else if oid == pg_type_bytea
    then translated binary []
    else translated string []
