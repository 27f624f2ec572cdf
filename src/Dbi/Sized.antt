-- ===== src/Dbi/Sized.antt =====
-- The attributes that the row readers need of a field: a translator has to set exactly one size for
-- an integer and for a decimal, and a part for a date and time.
use libdbi_drivers.Prelude.{◌≡◌, false, some, [], ◌∷◌, ◌≢◌, Bytes}
use libdbi_drivers.Dbi.{
  FieldType, unset, integer, decimal, string, binary, datetime, Attribs, integer_size1,
  integer_size2, integer_size3, integer_size4, integer_size8, decimal_size4, decimal_size8,
  is_integer_size, is_decimal_size, is_datetime_part, masked, Translated, Field, Data, Cell,
}

abbrev pub IsIntegerSize : Attribs → Type 0
IsIntegerSize (integer_size1 ∷ []) = Unit {0}
IsIntegerSize (integer_size2 ∷ []) = Unit {0}
IsIntegerSize (integer_size3 ∷ []) = Unit {0}
IsIntegerSize (integer_size4 ∷ []) = Unit {0}
IsIntegerSize (integer_size8 ∷ []) = Unit {0}
IsIntegerSize a = ⊥

abbrev pub IsDecimalSize : Attribs → Type 0
IsDecimalSize (decimal_size4 ∷ []) = Unit {0}
IsDecimalSize (decimal_size8 ∷ []) = Unit {0}
IsDecimalSize a = ⊥

abbrev pub SizedAs : FieldType → Attribs → Type 0
SizedAs unset a = ⊥
SizedAs integer a = IsIntegerSize (masked is_integer_size a)
SizedAs decimal a = IsDecimalSize (masked is_decimal_size a)
SizedAs string a = Unit {0}
SizedAs binary a = Unit {0}
SizedAs datetime a = masked is_datetime_part a ≢ []

abbrev pub IsSized : Translated → Type 0
IsSized t = SizedAs t.type t.attribs

-- The field that a driver adds to a result for a translated type.
abbrev pub field : Bytes → Translated → Field
field name t = record { name = name; type = t.type; attribs = t.attribs }

-- A cell that holds a value and is not flagged as NULL.
abbrev pub IsFilled : {F T : Type 0} → Cell F T → Type 0
IsFilled {F} {T} c = ((d : Data F T) × (c.value ≡ some d)) × (c.is_null ≡ false)
