-- ===== src/Freetds/Types/Sized.antt =====
-- The types that the FreeTDS driver gives the fields of a result.
use libdbi_drivers.Prelude.{◌⊎◌, ◌≢◌, ◌+◌, true, false, ◌≡◌, arith}
use libdbi_drivers.Dbi.{string, Translated}
use libdbi_drivers.Dbi.Sized.{IsSized}
use libdbi_drivers.Freetds.Types.{CsType, cs_long, by_datatype, Datafmt, _translate_freetds_type}

-- The buffer of a string has one byte more, for the zero, and no other has.
abbrev pub Buffered : Datafmt → Datafmt × Translated → Type 0
Buffered before (after, t) =
    ((after.nullterm ≡ true) × (t.type ≡ string) × (after.maxlength ≡ before.maxlength + 1))
    ⊎ ((after.nullterm ≡ false) × (t.type ≢ string) × (after.maxlength ≡ before.maxlength))

by_datatype-Buffered :
    (t : CsType) (f : Datafmt)
    → IsSized (by_datatype t f).1
      × ((by_datatype t f).0.datatype ≡ f.datatype)
      × Buffered f (by_datatype t f)
unfolding by_datatype
by_datatype-Buffered cs_long f = ground arith
by_datatype-Buffered _ f = ground arith

-- Every field gets the attributes that its type needs. A column keeps its data type, and its buffer
-- grows by the byte of a terminating zero exactly where its type is a string.
pub _translate_freetds_type_lem :
    (f : Datafmt)
    → IsSized (_translate_freetds_type f).1
      × ((_translate_freetds_type f).0.datatype ≡ f.datatype)
      × Buffered f (_translate_freetds_type f)
unfolding _translate_freetds_type
_translate_freetds_type_lem f = by_datatype-Buffered f.datatype f
