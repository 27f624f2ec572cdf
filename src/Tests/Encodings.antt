-- ===== src/Tests/Encodings.antt =====
-- Encoding names and version numbers at concrete inputs.
use libdbi_drivers.Prelude.{some, [], ◌∷◌, ◌++◌, ◌≡◌, ◌≢◌, refl, arith, codes}
use libdbi_drivers.CString.{is_digit}
use libdbi_drivers.Freetds.Version.{freetds_version_number}
use libdbi_drivers.Pgsql.Version.{is_version, version_number}
use libdbi_drivers.Pgsql.Version.Found.{version_number-found}

utf_8-ne : codes "UTF-8" ≢ codes "US-ASCII"
utf_8-ne = ground arith

version_number-found_example :
    version_number 32
      ((codes "PostgreSQL" ++ b' ' ∷ ([] ++ b'8' ∷ [])) ++ b'.' ∷ (codes "1.4" ++ codes " on x86"))
    ≡ some ([] ++ b'8' ∷ b'.' ∷ codes "1.4")
unfolding is_version is_digit
version_number-found_example =
    version_number-found 32 (codes "PostgreSQL") [] (codes "1.4") (codes " on x86") b' ' b'8'
      (omega arith) (omega arith) refl tt refl (refl, (refl, (refl, tt))) refl (omega arith)

version_run : version_number 32 (codes "a 8.1 b") ≡ some (codes "8.1")
unfolding version_number
version_run = refl

-- At the start of the text, the first digit is lost as well.
freetds_version_runs :
    (freetds_version_number 32 (codes "v 15.0.1 x") ≡ codes "15.0.")
    × (freetds_version_number 32 (codes "15.0.1 x") ≡ codes "5.0.")
unfolding freetds_version_number
freetds_version_runs = (refl, refl)
