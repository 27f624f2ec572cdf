-- ===== src/Dbi.antt =====
-- What the drivers share of libdbi (dbi/dbi.h, dbi/dbd.h, not part of this repository): the names of
-- the field types and attribute bits, the fields of a result and the cells of a row. The values
-- of the constants are libdbi's; here each is a constructor, and a word of bits that `|=` collects
-- is the list of the names.
pub mod Sized
pub mod Numbers
use libdbi_drivers.Prelude.{
  ℕ, Bool, true, false, ◌||◌, Option, none, some, List, [], ◌∷◌, ◌++◌, ◌≡◌, Bytes,
}
use libdbi_drivers.Prelude.Int.{ℤ}

-- `unset` is the 0 that the translators start with.
pub data FieldType : Type 0 where
  unset integer decimal string binary datetime : FieldType

pub data Attrib : Type 0 where
  integer_unsigned integer_size1 integer_size2 integer_size3 integer_size4 integer_size8 : Attrib
  decimal_size4 decimal_size8 : Attrib
  string_fixedsize : Attrib
  datetime_date datetime_time : Attrib

abbrev pub Attribs : Type 0
Attribs = List Attrib

-- What a translator leaves in `*type` and `*attribs`.
pub record Translated : Type 0 where
  pub type : FieldType
  pub attribs : Attribs

abbrev pub translated : FieldType → Attribs → Translated
translated t a = record { type = t; attribs = a }

abbrev pub is_integer_size : Attrib → Bool
is_integer_size integer_size1 = true
is_integer_size integer_size2 = true
is_integer_size integer_size3 = true
is_integer_size integer_size4 = true
is_integer_size integer_size8 = true
is_integer_size a = false

abbrev pub is_decimal_size : Attrib → Bool
is_decimal_size decimal_size4 = true
is_decimal_size decimal_size8 = true
is_decimal_size a = false

abbrev pub is_datetime_part : Attrib → Bool
is_datetime_part datetime_date = true
is_datetime_part datetime_time = true
is_datetime_part a = false

-- `attribs & mask`, for a mask of several bits.
abbrev pub masked : (Attrib → Bool) → Attribs → Attribs
masked mask [] = []
masked mask (a ∷ rest) = elim (mask a) [ true ↦ a ∷ masked mask rest | false ↦ masked mask rest ]

-- A member of a result's `field_types`, `field_attribs` and `field_names`.
pub record Field : Type 0 where
  pub name : Bytes
  pub type : FieldType
  pub attribs : Attribs

-- `dbi_data_t`, by the member that was last written. Floating-point numbers and times are those
-- of the parameters.
pub data Data (Float Time : Type 0) : Type 0 where
  d_char d_short d_long d_longlong : ℤ → Data Float Time
  d_float d_double : Float → Data Float Time
  d_string : Bytes → Data Float Time
  d_datetime : Time → Data Float Time

-- One column of a `dbi_row_t`: `none` is a value that was not written.
pub record Cell (Float Time : Type 0) : Type 0 where
  pub value : Option (Data Float Time)
  pub size : ℕ
  pub is_null : Bool

-- The functions of libdbi and the floating-point conversions that the row readers call.
pub record Libdbi : Type 1 where
  pub Float : Type 0
  pub Time : Type 0
  -- `(float) strtod(raw, NULL)` and `(double) strtod(raw, NULL)`
  pub to_float : Bytes → Float
  pub to_double : Bytes → Float
  pub parse_datetime : Bytes → Attribs → Time
  pub decode_binary : Bytes → Bytes
  -- `_isolate_attrib(attribs, rangemin, rangemax)`
  pub isolate_attrib : Attribs → Attrib → Attrib → Attribs

-- `_isolate_attrib` leaves the bits of the range, for the three ranges that are used.
pub record IsolatesAttribs (lib : Libdbi) : Type 0 where
  pub integers :
      (a : Attribs) → lib.isolate_attrib a integer_size1 integer_size8 ≡ masked is_integer_size a
  pub decimals :
      (a : Attribs) → lib.isolate_attrib a decimal_size4 decimal_size8 ≡ masked is_decimal_size a
  pub datetimes :
      (a : Attribs) → lib.isolate_attrib a datetime_date datetime_time ≡ masked is_datetime_part a
