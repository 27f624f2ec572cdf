-- ===== src/Firebird/Version.antt =====
-- The version number that `dbd_get_engine_version` of drivers/firebird/dbd_firebird.c cuts out of the text
-- that `isc_version` reports.
pub mod Found
use libdbi_drivers.Prelude.{
  ℕ, ◌-◌, Option, none, some, [], ◌∷◌, ◌++◌, ltb, if◌then◌else◌, Bytes, length,
}
use libdbi_drivers.CString.{split_at}
use libdbi_drivers.Freetds.Version.{without_last}
use libdbi_drivers.Pgsql.Version.{back_to_start, up_to_stop}
use mathlib.Core.List.{reverse}

-- The string that is left in `versionstring`, of `limit` (`VERSIONSTRING_LENGTH`) bytes: `start` to
-- `stop` without the last two characters. It stays empty without a dot and where
-- `stop-start < limit` fails. `none` is a read before the text.
unfoldable pub firebird_version_number : ℕ → Bytes → Option Bytes
unfolding split_at back_to_start up_to_stop
firebird_version_number limit version = elim (split_at b'.' version) [
  | none ↦ some []
  | some (before, after) ↦ elim (back_to_start (reverse before)) [
    | none ↦ none
    | some from ↦
        let found = up_to_stop (from ++ b'.' ∷ after) in
        some (if ltb (length found - 1) limit then without_last (without_last found) else [])
  ]
]
