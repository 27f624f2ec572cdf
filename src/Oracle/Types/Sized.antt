-- ===== src/Oracle/Types/Sized.antt =====
-- The types that the Oracle driver gives the fields of a result.
use libdbi_drivers.Prelude.{ℕ, ◌≢◌, arith, ◌↔◌}
use libdbi_drivers.Dbi.Sized.{IsSized}
use libdbi_drivers.Oracle.Types.{OracleType, sqlt_int, sqlt_dat, _translate_oracle_type}

-- Every type but a date gets the attributes that it needs, whatever its scale; a date gets no part.
pub _translate_oracle_type_lem :
    (t : OracleType) (scale : ℕ) → IsSized (_translate_oracle_type t scale) ↔ (t ≢ sqlt_dat)
unfolding _translate_oracle_type
_translate_oracle_type_lem sqlt_int scale = ground arith
_translate_oracle_type_lem _ scale = ground arith
