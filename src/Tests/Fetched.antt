-- ===== src/Tests/Fetched.antt =====
-- Columns that the Ingres, Oracle and Firebird drivers fetch, at concrete inputs.
use libdbi_drivers.Prelude.{true, none, some, List, [], ◌∷◌, ◌≡◌, refl, arith, Bytes, codes}
use libdbi_drivers.Prelude.Int.{ℤ}
use libdbi_drivers.Dbi.{string}
use libdbi_drivers.Ingres.Rows.{fetch_blob}
use libdbi_drivers.Ingres.Rows.Blobs.{concat, fetch_blob-concat}
use libdbi_drivers.Oracle.Rows as OracleRows
use libdbi_drivers.Oracle.Rows.Padded.{read_cell-padded}
use libdbi_drivers.Firebird.Version.{firebird_version_number}

abbrev pieces : List Bytes
pieces = codes "abc" ∷ codes "de" ∷ codes "fgh" ∷ codes "i" ∷ []

fetch_blob-concat_example : fetch_blob 3 pieces ≡ some (concat pieces)
fetch_blob-concat_example = fetch_blob-concat 3 pieces (ground arith)

-- A segment that is longer than the block twice over is written behind its end.
too_long : fetch_blob 1 (codes "abc" ∷ []) ≡ none
unfolding fetch_blob
too_long = refl

abbrev mktime : OracleRows.Tm → ℤ
mktime tm = tm.tm_year

read_cell-padded_example :
    OracleRows.read_cell Bytes ℤ
      (λ raw. raw)
      mktime
      true
      string
      (record { data_size = 5; buffer = codes "a b  x" })
    ≡ some (OracleRows.text_cell Bytes ℤ (λ raw. raw) mktime true (codes "a b") 3)
read_cell-padded_example =
    read_cell-padded Bytes ℤ (λ raw. raw) mktime b'a' (codes " b") 2 (codes "x") (ground arith)
      (ground arith)

version_run :
    firebird_version_number 32 (codes "version \"LI-V1.5.1.4500 Firebird 1.5\"")
    ≡ some (codes "1.5.1.45")
unfolding firebird_version_number
version_run = refl
