-- ===== src/Sqlite3/Types/Sized.antt =====
-- The attributes of the translated types.
use libdbi_drivers.Prelude.{arith}
use libdbi_drivers.Dbi.Sized.{IsSized}
use libdbi_drivers.Sqlite3.Types.{FieldKind, tiny, _translate_sqlite3_type}

pub translate-IsSized : (kind : FieldKind) → IsSized (_translate_sqlite3_type kind)
unfolding _translate_sqlite3_type
translate-IsSized tiny = tt
translate-IsSized _ = ground arith
