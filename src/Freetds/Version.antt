-- ===== src/Freetds/Version.antt =====
-- The version number that `dbd_get_engine_version` of drivers/freetds/dbd_freetds.c cuts out of the text
-- that the server returns for @@version.
pub mod Found
use mathlib.Core.List.{reverse}
use libdbi_drivers.Prelude.{ℕ, ◌-◌, none, some, [], ◌∷◌, ◌++◌, ltb, if◌then◌else◌, Bytes, length}
use libdbi_drivers.CString.{is_digit, split_at, take_while}
use libdbi_drivers.Pgsql.Version.{is_version}

abbrev pub without_first : Bytes → Bytes
without_first [] = []
without_first (c ∷ s) = s

abbrev pub without_last : Bytes → Bytes
without_last [] = []
without_last (c ∷ []) = []
without_last (c ∷ d ∷ s) = c ∷ without_last (d ∷ s)

-- From the text before the first dot, what stands from `start` on: the digits at its end, without the
-- first character of the text, which the loop stops at.
unfoldable pub digits_before : Bytes → Bytes
unfolding take_while is_digit
digits_before before = reverse (take_while is_digit (reverse (without_first before)))

-- From `start` up to `stop`.
unfoldable pub from_start : Bytes → Bytes → Bytes
unfolding digits_before take_while is_version
from_start before after = take_while is_version (digits_before before ++ b'.' ∷ after)

-- The string that is left in `versionstring`, of `limit` (`VERSIONSTRING_LENGTH`) bytes. The last
-- character is not copied. It stays empty without a dot and where `--len < limit` fails.
unfoldable pub freetds_version_number : ℕ → Bytes → Bytes
unfolding split_at from_start
freetds_version_number limit versioninfo = elim (split_at b'.' versioninfo) [
  | none ↦ []
  | some (before, after) ↦
      let found = from_start before after in
      if ltb (length found - 1) limit then without_last found else []
]
