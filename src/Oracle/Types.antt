-- ===== src/Oracle/Types.antt =====
-- `_translate_oracle_type` of drivers/oracle/dbd_oracle.c. The type codes are those of Oracle's headers;
-- `other` is any code that no label names.
pub mod Sized
use libdbi_drivers.Prelude.{ℕ, [], ◌∷◌, ltb, if◌then◌else◌}
use libdbi_drivers.Dbi.{
  Translated, translated, integer, decimal, string, binary, datetime, integer_size8, decimal_size8,
}

pub data OracleType : Type 0 where
  sqlt_int sqlt_lng sqlt_flt sqlt_num sqlt_bin sqlt_lbi sqlt_dat : OracleType
  sqlt_afc sqlt_str sqlt_chr sqlt_vnu sqlt_vcs other : OracleType

unfoldable pub _translate_oracle_type : OracleType → ℕ → Translated
_translate_oracle_type sqlt_int scale = translated integer (integer_size8 ∷ [])
_translate_oracle_type sqlt_lng scale = translated integer (integer_size8 ∷ [])
_translate_oracle_type sqlt_flt scale = translated decimal (decimal_size8 ∷ [])
_translate_oracle_type sqlt_num scale =
    if ltb 0 scale
    then translated decimal (decimal_size8 ∷ [])
    else translated integer (integer_size8 ∷ [])
_translate_oracle_type sqlt_bin scale = translated binary []
_translate_oracle_type sqlt_lbi scale = translated binary []
_translate_oracle_type sqlt_dat scale = translated datetime []
_translate_oracle_type type scale = translated string []
