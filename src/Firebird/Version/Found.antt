-- ===== src/Firebird/Version/Found.antt =====
-- The version number against the one that the PostgreSQL driver would cut out.
use libdbi_drivers.Prelude.{arith, ℕ, some, ◌≡◌, Bytes}
use libdbi_drivers.Freetds.Version.{without_last}
use libdbi_drivers.Pgsql.Version.{version_number}
use libdbi_drivers.Firebird.Version.{firebird_version_number}

-- Where the PostgreSQL driver cuts a number out of a text, the Firebird driver keeps that number without
-- its last two characters.
pub firebird_version_number-without_two :
    (limit : ℕ) (version s : Bytes)
    → version_number limit version ≡ some s
    → firebird_version_number limit version ≡ some (without_last (without_last s))
unfolding firebird_version_number version_number
firebird_version_number-without_two limit version s h = ground arith
