-- ===== src/Tests/Dates.antt =====
-- Dates at concrete inputs.
use libdbi_drivers.Prelude.{some, [], ◌∷◌, ◌++◌, ◌≡◌, refl, arith, Bytes, codes}
use libdbi_drivers.Prelude.Int.{ℤ, pos, negsuc}
use libdbi_drivers.CString.{is_digit}
use libdbi_drivers.Ingres.Months.{in_word_set}
use libdbi_drivers.Ingres.Months.Correct.{month_index, in_word_set-month_index}
use libdbi_drivers.Ingres.Date.{Tm, ingres_date}
use libdbi_drivers.Ingres.Date.Fields.{ingres_date-time}

in_word_set-month_index_example :
    in_word_set (codes "Oct" ++ 0 ∷ b'2' ∷ codes "004" ++ 0 ∷ []) 3
    ≡ some (month_index (codes "Oct"))
in_word_set-month_index_example =
    in_word_set-month_index (codes "Oct") (codes "004" ++ 0 ∷ []) b'2' (ground arith) (ground arith)

-- The seconds of a time of day, and the year.
abbrev timegm : Tm → ℤ
timegm tm = elim tm.sec [ pos n ↦ pos n | negsuc n ↦ tm.year ]

abbrev date : Bytes
date = codes "07-Oct-2004 23:05:09"

date-runs : ingres_date timegm date ≡ some (pos 9)
unfolding ingres_date
date-runs = refl

ingres_date-time_example : ingres_date timegm (codes "07-Oct-2004 23:05:09") ≡ some (pos 9)
unfolding month_index is_digit
ingres_date-time_example =
    ingres_date-time timegm (0 ∷ 7 ∷ []) b'-' (codes "Oct") 9 (2 ∷ 0 ∷ 0 ∷ 4 ∷ []) 0 (2 ∷ 3 ∷ [])
      (0 ∷ 5 ∷ []) (0 ∷ 9 ∷ []) b':' b':' [] (ground arith) refl refl (ground arith) (ground arith)
      refl (ground arith) (ground arith) (ground arith) (ground arith) refl refl tt
