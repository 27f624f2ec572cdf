-- ===== src/Oracle/Rows/Dates.antt =====
-- Oracle's dates as `_oradate_to_time_t` reads them.
use libdbi_drivers.Prelude.{ℕ, Bool, ◌+◌, ◌*◌, some, ◌∷◌, ◌≡◌, refl, arith, Bytes}
use libdbi_drivers.Prelude.Int.{pos}
use libdbi_drivers.Oracle.Rows.{Tm, minus, century_and_year, _oradate_to_time_t}

minus-add : (n k : ℕ) → minus (n + k) k ≡ pos n
minus-add n k = ground arith

century_and_year-excess : (c y : ℕ) → century_and_year (c + 100) (y + 100) ≡ pos (c * 100 + y)
century_and_year-excess c y = ground arith

-- Of the date that Oracle stores for a century, a year of it, a month and a day from 1 on, and a time,
-- with 100 added to the first two and 1 to the parts of the time, `mktime` is given the time and the
-- day, the month from 1 on, and the year from the year 0 on.
pub _oradate_to_time_t-stored :
    (Float Time : Type 0) (to_double : Bytes → Float) (mktime : Tm → Time) (chop : Bool)
    (century year month day hour minute second : ℕ) (rest : Bytes)
    → _oradate_to_time_t Float Time to_double mktime chop (
        (century + 100)
        ∷ (year + 100)
        ∷ month
        ∷ day
        ∷ (hour + 1)
        ∷ (minute + 1)
        ∷ (second + 1)
        ∷ rest)
      ≡ some (
          mktime (record {
            tm_sec = pos second;
            tm_min = pos minute;
            tm_hour = pos hour;
            tm_mday = pos day;
            tm_mon = pos month;
            tm_year = pos (century * 100 + year);
          }))
unfolding _oradate_to_time_t
_oradate_to_time_t-stored Float Time to_double mktime chop century year month day hour minute second
      rest =
    rw
      (
        century_and_year-excess century year,
        minus-add hour 1,
        minus-add minute 1,
        minus-add second 1,
      )
      refl
