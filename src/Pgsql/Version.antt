-- ===== src/Pgsql/Version.antt =====
-- The version number that `dbd_get_engine_version` of drivers/pgsql/dbd_pgsql.c cuts out of the text
-- that the server returns for SELECT VERSION().
pub mod Found
use mathlib.Core.List.{reverse}
use libdbi_drivers.Prelude.{
  ℕ, ◌-◌, Bool, ◌||◌, Option, none, some, [], ◌∷◌, ◌++◌, ltb, ◌==◌, if◌then◌else◌, Bytes, length,
}
use libdbi_drivers.CString.{is_digit, split_at, take_while}

-- What the loop over `stop` accepts.
unfoldable pub is_version : ℕ → Bool
unfolding is_digit
is_version c = is_digit c || c == b'.'

-- From the text before the first dot, read backwards, what stands from `start` on: the character
-- before the dot, whatever it is, and the digits before that. `none`: there is no such character.
unfoldable pub back_to_start : Bytes → Option Bytes
unfolding take_while is_digit
back_to_start [] = none
back_to_start (c ∷ before) = some (reverse (take_while is_digit before) ++ c ∷ [])

-- From `start` to `stop`, both included.
unfoldable pub up_to_stop : Bytes → Bytes
unfolding take_while is_version
up_to_stop [] = []
up_to_stop (c ∷ s) = c ∷ take_while is_version s

-- The string that is left in `versionstring`, of `limit` (`VERSIONSTRING_LENGTH`) bytes. It stays empty
-- without a dot and where `stop-start < limit` fails. `none` is a read before the text, or the
-- terminating zero written behind the array, at `versionstring[stop-start+1]`.
unfoldable pub version_number : ℕ → Bytes → Option Bytes
unfolding split_at back_to_start up_to_stop
version_number limit versioninfo = elim (split_at b'.' versioninfo) [
  | none ↦ some []
  | some (before, after) ↦ elim (back_to_start (reverse before)) [
    | none ↦ none
    | some from ↦
        let found = up_to_stop (from ++ b'.' ∷ after) in
        if ltb (length found - 1) limit
        then (if ltb (length found) limit then some found else none)
        else some []
  ]
]
