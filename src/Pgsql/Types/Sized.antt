-- ===== src/Pgsql/Types/Sized.antt =====
-- The attributes of the translated types.
use libdbi_drivers.Prelude.{ℕ, arith}
use libdbi_drivers.Dbi.Sized.{IsSized}
use libdbi_drivers.Pgsql.Types.{_translate_postgresql_type}

pub translate-IsSized : (oid : ℕ) → IsSized (_translate_postgresql_type oid)
unfolding _translate_postgresql_type
translate-IsSized oid = ground arith
