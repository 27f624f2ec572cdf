-- ===== src/Tests/Sqlite3.antt =====
-- The SQLite3 driver at concrete inputs.
use libdbi_drivers.Prelude.{
  true, false, Option, none, some, List, [], ◌∷◌, ◌≡◌, ◌↔◌, refl, arith, Bytes, codes, length,
}
use libdbi_drivers.Prelude.Int.{negsuc, cast}
use libdbi_drivers.Dbi.{d_short, Field, Cell}
use libdbi_drivers.CString.Number.{atol}
use libdbi_drivers.Dbi.Numbers.{read_integer}
use libdbi_drivers.Dbi.Sized.{field}
use libdbi_drivers.Sqlite3.Rows.{_get_row_data}
use libdbi_drivers.Sqlite3.Rows.InBounds.{_get_row_data-some}
use libdbi_drivers.Sqlite3.Types.{short_kind, string_kind, _translate_sqlite3_type}
use libdbi_drivers.Sqlite3.Wildcard.{found, not_here, not_any, wild_case_compare}
use libdbi_drivers.Sqlite3.Wildcard.Correct.{wild_case_compare-like}
use libdbi_drivers.Sqlite3.Wildcard.Like.{tokens, like}
use libdbi_drivers.Tests.Sample.{sample_lib}

wild_runs :
    (wild_case_compare (codes "base.db") (codes "b%.d_") b'\\' ≡ found)
    × (wild_case_compare (codes "100%") (codes "1__\\%") b'\\' ≡ found)
    × (wild_case_compare (codes "a.txt") (codes "%.db") b'\\' ≡ not_any)
    × (wild_case_compare (codes "base") (codes "case") b'\\' ≡ not_here)
    × (wild_case_compare (233 ∷ []) (233 ∷ []) b'\\' ≡ found)
    × (wild_case_compare (233 ∷ []) (b'%' ∷ 233 ∷ []) b'\\' ≡ not_any)
unfolding wild_case_compare
wild_runs = (refl, refl, refl, refl, refl, refl)

wild_case_compare-like_example :
    (wild_case_compare (codes "base.db") (codes "b%.d_") b'\\' ≡ found)
    ↔ (like (tokens b'\\' (codes "b%.d_")) (codes "base.db") ≡ true)
wild_case_compare-like_example =
    wild_case_compare-like (codes "base.db") (codes "b%.d_") b'\\' (ground arith)

abbrev fields : List Field
fields =
    field (codes "id") (_translate_sqlite3_type short_kind)
    ∷ field (codes "name") (_translate_sqlite3_type string_kind)
    ∷ []

-- The names of the columns, and two rows.
abbrev table : List (Option Bytes)
table =
    some (codes "id")
    ∷ some (codes "name")
    ∷ some (codes "-12")
    ∷ none
    ∷ some (codes "7")
    ∷ some (codes "x")
    ∷ []

_get_row_data_runs :
    _get_row_data sample_lib table fields 0
    ≡ some (
        record { value = some (d_short (negsuc 11)); size = 0; is_null = false }
        ∷ record { value = none; size = 0; is_null = false }
        ∷ [])
unfolding _get_row_data _translate_sqlite3_type read_integer cast atol
_get_row_data_runs = refl

_get_row_data-some_example :
    (cells : List (Cell Bytes Bytes)) × (_get_row_data sample_lib table fields 1 ≡ some cells)
    × (length cells ≡ length fields)
_get_row_data-some_example = _get_row_data-some sample_lib table fields 2 1 refl (omega arith)
