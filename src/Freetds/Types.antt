-- ===== src/Freetds/Types.antt =====
-- `_translate_freetds_type` of drivers/freetds/dbd_freetds.c. The type codes are those of the CT library's
-- header; `other` is any code that no label names.
pub mod Sized
use libdbi_drivers.Prelude.{ℕ, ◌+◌, Bool, true, false, [], ◌∷◌}
use libdbi_drivers.Dbi.{
  Translated, translated, integer, decimal, string, binary, datetime, integer_size1, integer_size2,
  integer_size4, integer_size8, decimal_size4, decimal_size8, datetime_date, datetime_time,
}

pub data CsType : Type 0 where
  cs_long cs_int cs_smallint cs_bit cs_tinyint cs_datetime cs_datetime4 cs_real cs_float : CsType
  cs_char cs_text cs_varchar cs_money cs_money4 cs_numeric cs_decimal cs_unique cs_image : CsType
  cs_binary cs_varbinary cs_unichar other : CsType

-- The members of `CS_DATAFMT` that the function reads and writes; `format` is CS_FMT_NULLTERM where it
-- is true and CS_FMT_UNUSED otherwise.
pub record Datafmt : Type 0 where
  pub datatype : CsType
  pub maxlength : ℕ
  pub nullterm : Bool

abbrev unused : Datafmt → Datafmt
unused f = record { datatype = f.datatype; maxlength = f.maxlength; nullterm = false }

abbrev terminated : Datafmt → Datafmt
terminated f = record { datatype = f.datatype; maxlength = f.maxlength + 1; nullterm = true }

abbrev both : Translated
both = translated datetime (datetime_date ∷ datetime_time ∷ [])

unfoldable pub by_datatype : CsType → Datafmt → Datafmt × Translated
by_datatype cs_long f = (unused f, translated integer (integer_size8 ∷ []))
by_datatype cs_int f = (unused f, translated integer (integer_size4 ∷ []))
by_datatype cs_smallint f = (unused f, translated integer (integer_size2 ∷ []))
by_datatype cs_bit f = (unused f, translated integer (integer_size1 ∷ []))
by_datatype cs_tinyint f = (unused f, translated integer (integer_size1 ∷ []))
by_datatype cs_datetime f = (unused f, both)
by_datatype cs_datetime4 f = (unused f, both)
by_datatype cs_real f = (unused f, translated decimal (decimal_size4 ∷ []))
by_datatype cs_float f = (unused f, translated decimal (decimal_size8 ∷ []))
by_datatype cs_char f = (terminated f, translated string [])
by_datatype cs_text f = (terminated f, translated string [])
by_datatype cs_varchar f = (terminated f, translated string [])
by_datatype t f = (unused f, translated binary [])

-- What becomes of `*datafmt`, and `*type` and `*attribs`.
unfoldable pub _translate_freetds_type : Datafmt → Datafmt × Translated
unfolding by_datatype
_translate_freetds_type f = by_datatype f.datatype f
