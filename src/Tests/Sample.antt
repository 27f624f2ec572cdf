-- ===== src/Tests/Sample.antt =====
-- A libdbi to run the row readers with: numbers and times are left as their text.
use libdbi_drivers.Prelude.{[], refl, Bytes}
use libdbi_drivers.Dbi.{
  integer_size1, decimal_size4, datetime_date, is_integer_size, is_decimal_size, is_datetime_part,
  masked, Libdbi, IsolatesAttribs,
}

abbrev pub sample_lib : Libdbi
sample_lib = record {
  Float = Bytes;
  Time = Bytes;
  to_float = λ raw. raw;
  to_double = λ raw. raw;
  parse_datetime = λ raw a. raw;
  decode_binary = λ raw. raw;
  isolate_attrib = λ a lo hi. elim lo [
    | integer_size1 ↦ masked is_integer_size a
    | decimal_size4 ↦ masked is_decimal_size a
    | datetime_date ↦ masked is_datetime_part a
    | _ ↦ []
  ];
}

pub sample_lib-IsolatesAttribs : IsolatesAttribs sample_lib
sample_lib-IsolatesAttribs = record {
  integers = λ a. refl;
  decimals = λ a. refl;
  datetimes = λ a. refl;
}
