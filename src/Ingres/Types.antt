-- ===== src/Ingres/Types.antt =====
-- `ingres_classify_field` of drivers/ingres/dbd_ingres.c. The type codes are those of the Ingres API's
-- header; `other` is any code that no label names: the `switch` has no default.
pub mod Sized
use libdbi_drivers.Prelude.{ℕ, [], ◌∷◌, ◌==◌, if◌then◌else◌}
use libdbi_drivers.Dbi.{
  Attribs, Translated, translated, unset, integer, decimal, string, binary, datetime, integer_size1,
  integer_size2, integer_size4, integer_size8, decimal_size4, decimal_size8,
}

pub data IngresType : Type 0 where
  iiapi_int iiapi_flt iiapi_logkey iiapi_tabkey iiapi_lbyte iiapi_vbyte iiapi_byte : IngresType
  iiapi_vch iiapi_lvch iiapi_txt iiapi_chr iiapi_cha iiapi_ltxt iiapi_ncha iiapi_nvch : IngresType
  iiapi_lnvch iiapi_dec iiapi_mny iiapi_dte other : IngresType

-- The two inner `switch`es on `ds_length`.
abbrev integer_attribs : ℕ → Attribs
integer_attribs ds_length =
    if ds_length == 1
    then integer_size1 ∷ []
    else if ds_length == 2
    then integer_size2 ∷ []
    else if ds_length == 4
    then integer_size4 ∷ []
    else if ds_length == 8
    then integer_size8 ∷ []
    else []

abbrev decimal_attribs : ℕ → Attribs
decimal_attribs ds_length =
    if ds_length == 4 then decimal_size4 ∷ [] else if ds_length == 8 then decimal_size8 ∷ [] else []

unfoldable pub ingres_classify_field : IngresType → ℕ → Translated
ingres_classify_field iiapi_int ds_length = translated integer (integer_attribs ds_length)
ingres_classify_field iiapi_flt ds_length = translated decimal (decimal_attribs ds_length)
ingres_classify_field iiapi_logkey ds_length = translated binary []
ingres_classify_field iiapi_tabkey ds_length = translated binary []
ingres_classify_field iiapi_lbyte ds_length = translated binary []
ingres_classify_field iiapi_vbyte ds_length = translated binary []
ingres_classify_field iiapi_byte ds_length = translated binary []
ingres_classify_field iiapi_dte ds_length = translated datetime []
ingres_classify_field other ds_length = translated unset []
ingres_classify_field type ds_length = translated string []
