-- ===== src/Firebird/Rows.antt =====
-- `_get_field_info` and `_get_row_data` of drivers/firebird/utility.c. A column is what `isc_dsql_fetch`
-- left in its XSQLVAR. The conversions of Firebird's dates, `%d`, and `isc_get_segment` are parameters
-- or data. `none` is an access outside of a block.
pub mod Blobs
use libdbi_drivers.Prelude.{
  ℕ, ◌+◌, Bool, true, false, ◌&&◌, Option, none, some, List, [], ◌∷◌, ◌++◌, leb, if◌then◌else◌,
  Bytes, length,
}
use libdbi_drivers.Prelude.Int.{ℤ, cast}
use libdbi_drivers.CString.{c_string}
use libdbi_drivers.Dbi.{
  FieldType, unset, integer, decimal, string, binary, datetime, Attrib, Attribs, integer_size1,
  integer_size2, integer_size3, integer_size4, integer_size8, decimal_size4, decimal_size8,
  string_fixedsize, datetime_date, datetime_time, Field, Data, d_short, d_long, d_longlong, d_float,
  d_double, d_string, d_datetime, Cell, Libdbi,
}
use libdbi_drivers.Dbi.Sized.{field}
use libdbi_drivers.Firebird.Types.{FirebirdType, _translate_firebird_type}

-- A `struct tm` that a conversion fills, by the numbers that are printed of it.
pub record Times : Type 0 where
  pub year : ℤ
  pub mon : ℤ
  pub mday : ℤ
  pub hour : ℤ
  pub min : ℤ
  pub sec : ℤ

-- `sqldata`: a text of a fixed size with its `sqllen`, a text with its length, a number, a
-- floating-point number, a date or time, or a blob by the segments that `isc_get_segment` returns.
pub data SqlData (Float : Type 0) : Type 0 where
  fixed : Bytes → ℕ → SqlData Float
  varying : Bytes → SqlData Float
  whole : ℤ → SqlData Float
  real : Float → SqlData Float
  moment : Times → SqlData Float
  blob : Bytes → List Bytes → SqlData Float

-- A block of memory: what was written to it, and its size.
abbrev pub fill : ℕ → Bytes → Option Bytes
fill size s = if leb (length s) size then some s else none

-- The first segment goes to a block of the size of an `unsigned short`; `realloc` makes room for each of
-- the others.
abbrev pub size_of_short : ℕ
size_of_short = 2

abbrev pub append_segments : Bytes → List Bytes → Bytes
append_segments s [] = s
append_segments s (segment ∷ segments) = append_segments (s ++ segment) segments

unfoldable pub read_blob : Bytes → List Bytes → Option Bytes
read_blob segment segments = elim (fill size_of_short segment) [
  | none ↦ none
  | some s ↦ some (append_segments s segments)
]

abbrev pub has : Attribs → (Attrib → Bool) → Bool
has [] p = false
has (a ∷ attribs) p = if p a then true else has attribs p

abbrev pub is_time : Attrib → Bool
is_time datetime_time = true
is_time a = false

abbrev pub is_date : Attrib → Bool
is_date datetime_date = true
is_date a = false

abbrev pub is_fixedsize : Attrib → Bool
is_fixedsize string_fixedsize = true
is_fixedsize a = false

-- A column of a result: its name and its type, without the bit for NULL.
abbrev pub _get_field_info : List (Bytes × FirebirdType) → List Field
_get_field_info [] = []
_get_field_info ((name, type) ∷ columns) =
    field name (_translate_firebird_type type) ∷ _get_field_info columns

module _ (lib : Libdbi) (print2 print4 : ℤ → Bytes) where
  open lib use {Float, Time}

  -- `%04d-%02d-%02d` and `%02d:%02d:%02d`
  abbrev pub date_text : Times → Bytes
  date_text t = print4 t.year ++ b'-' ∷ (print2 t.mon ++ b'-' ∷ print2 t.mday)

  abbrev pub time_text : Times → Bytes
  time_text t = print2 t.hour ++ b':' ∷ (print2 t.min ++ b':' ∷ print2 t.sec)

  abbrev pub moment_text : Attribs → Times → Bytes
  moment_text attribs t =
      if has attribs is_time && has attribs is_date
      then date_text t ++ b' ' ∷ time_text t
      else if has attribs is_time
      then time_text t
      else date_text t

  abbrev pub cell : Option (Data Float Time) → ℕ → Cell Float Time
  cell d n = record { value = d; size = n; is_null = false }

  unfoldable pub read_whole : Attribs → ℤ → Option (Data Float Time)
  unfolding cast
  read_whole (integer_size1 ∷ []) z = some (d_short (cast 16 z))
  read_whole (integer_size2 ∷ []) z = some (d_short (cast 16 z))
  read_whole (integer_size3 ∷ []) z = some (d_long (cast 32 z))
  read_whole (integer_size4 ∷ []) z = some (d_long (cast 32 z))
  read_whole (integer_size8 ∷ []) z = some (d_longlong (cast 64 z))
  read_whole sizeattrib z = none

  unfoldable pub read_real : Attribs → Float → Option (Data Float Time)
  read_real (decimal_size4 ∷ []) x = some (d_float x)
  read_real (decimal_size8 ∷ []) x = some (d_double x)
  read_real sizeattrib x = none

  -- The `switch` on the field type; memory of another kind than the type's is not read.
  unfoldable pub read_value : FieldType → Attribs → SqlData Float → Option (Cell Float Time)
  unfolding read_whole read_real read_blob c_string
  read_value string attribs (fixed s sqllen) =
      if has attribs is_fixedsize then some (cell (some (d_string (c_string s))) sqllen) else none
  read_value string attribs (varying s) =
      if has attribs is_fixedsize then none else some (cell (some (d_string s)) (length s))
  read_value integer attribs (whole z) =
      some (cell (read_whole (lib.isolate_attrib attribs integer_size1 integer_size8) z) 0)
  read_value decimal attribs (real x) =
      some (cell (read_real (lib.isolate_attrib attribs decimal_size4 decimal_size8) x) 0)
  read_value datetime attribs (moment t) =
      let sizeattrib = lib.isolate_attrib attribs datetime_date datetime_time in
      some (cell (some (d_datetime (lib.parse_datetime (moment_text sizeattrib t) sizeattrib))) 0)
  read_value binary attribs (blob segment segments) = elim (read_blob segment segments) [
    | none ↦ none
    | some s ↦ some (cell (some (d_string (lib.decode_binary s))) (length (lib.decode_binary s)))
  ]
  read_value unset attribs data' = some (cell none 0)
  read_value type attribs data' = none

  -- `none` for the data is a NULL.
  unfoldable pub read_cell : Field → Option (SqlData Float) → Option (Cell Float Time)
  unfolding read_value
  read_cell f none = some (record { value = none; size = 0; is_null = true })
  read_cell f (some data') = read_value f.type f.attribs data'

  unfoldable pub read_cells :
      List Field → List (Option (SqlData Float)) → Option (List (Cell Float Time))
  unfolding read_cell
  read_cells [] vars = some []
  read_cells (f ∷ fs) [] = none
  read_cells (f ∷ fs) (v ∷ vars) = elim (read_cell f v) [
    | none ↦ none
    | some c ↦ elim (read_cells fs vars) [ none ↦ none | some cs ↦ some (c ∷ cs) ]
  ]
