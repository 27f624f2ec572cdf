-- ===== src/Firebird/Types/Sized.antt =====
-- The types that the Firebird driver gives the fields of a result.
use libdbi_drivers.Prelude.{◌≢◌, arith, ◌↔◌}
use libdbi_drivers.Dbi.Sized.{IsSized}
use libdbi_drivers.Firebird.Types.{FirebirdType, sql_text, other, _translate_firebird_type}

-- Every type that has a label gets the attributes that it needs, and no other does.
pub _translate_firebird_type_lem :
    (t : FirebirdType) → IsSized (_translate_firebird_type t) ↔ (t ≢ other)
unfolding _translate_firebird_type
_translate_firebird_type_lem sql_text = ground arith
_translate_firebird_type_lem _ = ground arith
