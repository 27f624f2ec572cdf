-- ===== src/Ingres/Date/Fields.antt =====
-- The dates that `ingres_date` reads.
use libdbi_drivers.Prelude.{
  ℕ, zero, suc, false, none, some, List, [], ◌∷◌, ◌++◌, ◌≡◌, ◌≢◌, refl, ◌∙◌, arith, Bytes,
}
use libdbi_drivers.Prelude.Int.{ℤ, pos}
use libdbi_drivers.CString.{is_digit}
use libdbi_drivers.CString.Laws.{Lacks, split_at-Lacks}
use libdbi_drivers.CString.Number.{numeral, place_value, EndsNumber, negate}
use libdbi_drivers.Ingres.Months.{in_word_set}
use libdbi_drivers.Ingres.Months.Correct.{month_index, in_word_set-month_index}
use libdbi_drivers.Ingres.Date.Numbers.{
  IsNumber, atoi-numeral, atoi-negative, skip_number, starts_digit-numeral, up_to-numeral,
  IsNumber-AreDigits,
}
use libdbi_drivers.Ingres.Date.{
  Tm, subtract, skip_digits, skip_blanks, read_seconds, read_minutes, read_time, read_year,
  read_named_month, read_month, ingres_date,
}

-- A word that begins with no digit.
abbrev pub BeginsName : Bytes → Type 0
BeginsName [] = ⊥
BeginsName (c ∷ s) = is_digit c ≡ false

in_word_set-behind :
    (name p : Bytes)
    → Lacks 0 name
    → name ≢ []
    → in_word_set (name ++ 0 ∷ (p ++ 0 ∷ [])) 3 ≡ some (month_index name)
in_word_set-behind name [] h ne = in_word_set-month_index name [] 0 h ne
in_word_set-behind name (c ∷ p) h ne = in_word_set-month_index name (p ++ 0 ∷ []) c h ne

abbrev pub spaces : ℕ → Bytes
spaces zero = []
spaces (suc n) = b' ' ∷ spaces n

module _ (timegm : Tm → ℤ) where
  ingres_date-day :
      (day : List ℕ) (rest : Bytes)
      → IsNumber day
      → EndsNumber rest
      → ingres_date timegm (numeral day ++ rest) ≡ read_month timegm (pos (place_value day)) rest
  unfolding ingres_date
  ingres_date-day day rest h e =
      rw
        (
          ingres_date,
          starts_digit-numeral day rest h,
          ingres_date,
          atoi-numeral day rest h e,
          skip_number day rest h e,
        )
        refl

  -- A month that is a word, and what follows it.
  read_month-named :
      (mday : ℤ) (sep : ℕ) (name p : Bytes) (index : ℕ)
      → BeginsName name
      → Lacks sep name
      → Lacks 0 name
      → month_index name ≡ some index
      → read_month timegm mday (sep ∷ (name ++ sep ∷ p)) ≡ read_year timegm mday (pos index) p
  unfolding read_month read_named_month
  read_month-named mday sep [] p index b l z m = absurd b
  read_month-named mday sep (c ∷ name) p index b l z m =
      rw
        (
          read_month,
          b,
          split_at-Lacks sep (c ∷ name) p l,
          read_month,
          in_word_set-behind (c ∷ name) p z (ground arith),
          m,
        )
        refl

  read_month-unnamed :
      (mday : ℤ) (sep : ℕ) (name p : Bytes)
      → BeginsName name
      → Lacks sep name
      → Lacks 0 name
      → month_index name ≡ none
      → read_month timegm mday (sep ∷ (name ++ sep ∷ p)) ≡ none
  unfolding read_month read_named_month
  read_month-unnamed mday sep [] p b l z m = absurd b
  read_month-unnamed mday sep (c ∷ name) p b l z m =
      rw
        (
          read_month,
          b,
          split_at-Lacks sep (c ∷ name) p l,
          read_month,
          in_word_set-behind (c ∷ name) p z (ground arith),
          m,
        )
        refl

  -- A month of digits: the year is read from the separator behind it.
  read_month-number :
      (mday : ℤ) (sep : ℕ) (month : List ℕ) (p : Bytes)
      → IsNumber month
      → is_digit sep ≡ false
      → read_month timegm mday (sep ∷ (numeral month ++ sep ∷ p))
        ≡ read_year timegm mday (subtract (pos (place_value month)) 1) (sep ∷ p)
  unfolding read_month
  read_month-number mday sep month p h e =
      rw
        (
          read_month,
          starts_digit-numeral month (sep ∷ p) h,
          read_month,
          atoi-numeral month (sep ∷ p) h e,
          up_to-numeral sep month p (IsNumber-AreDigits month h) e,
        )
        refl

  read_year-number :
      (mday mon : ℤ) (year : List ℕ) (rest : Bytes)
      → IsNumber year
      → EndsNumber rest
      → read_year timegm mday mon (numeral year ++ rest)
        ≡ read_time timegm
            (record {
              sec = pos 0;
              min = pos 0;
              hour = pos 0;
              mday = mday;
              mon = mon;
              year = subtract (pos (place_value year)) 1900;
            })
            (skip_blanks rest)
  unfolding read_year
  read_year-number mday mon [] rest h e = absurd h
  read_year-number mday mon (d ∷ year) rest h e =
      rw (read_year, atoi-numeral (d ∷ year) rest h e, skip_number (d ∷ year) rest h e) refl

  -- A year that is read from a `-` on.
  read_year-negative :
      (mday mon : ℤ) (d : ℕ) (year : List ℕ)
      → IsNumber (d ∷ year)
      → read_year timegm mday mon (b'-' ∷ numeral (d ∷ year))
        ≡ some (
            timegm (record {
              sec = pos 0;
              min = pos 0;
              hour = pos 0;
              mday = mday;
              mon = mon;
              year = subtract (negate (place_value (d ∷ year))) 1900;
            }))
  unfolding read_year read_time skip_digits skip_blanks is_digit
  read_year-negative mday mon d year h = rw (atoi-negative d year h) refl

  read_time-number :
      (tm : Tm) (hour minute second : List ℕ) (c d : ℕ) (rest : Bytes)
      → IsNumber hour
      → IsNumber minute
      → IsNumber second
      → is_digit c ≡ false
      → is_digit d ≡ false
      → EndsNumber rest
      → read_time timegm tm (numeral hour ++ c ∷ (numeral minute ++ d ∷ (numeral second ++ rest)))
        ≡ some (
            timegm (record tm {
              hour = pos (place_value hour);
              min = pos (place_value minute);
              sec = pos (place_value second);
            }))
  unfolding read_time read_minutes read_seconds
  read_time-number tm hour minute second c d rest h m s ec ed e =
      rw
        (
          read_time,
          starts_digit-numeral hour (c ∷ (numeral minute ++ d ∷ (numeral second ++ rest))) h,
          read_time,
          skip_number hour (c ∷ (numeral minute ++ d ∷ (numeral second ++ rest))) h ec,
          read_minutes,
          skip_number minute (d ∷ (numeral second ++ rest)) m ed,
          read_seconds,
          atoi-numeral hour (c ∷ (numeral minute ++ d ∷ (numeral second ++ rest))) h ec,
          atoi-numeral minute (d ∷ (numeral second ++ rest)) m ed,
          atoi-numeral second rest s e,
        )
        refl

  skip_blanks-numeral :
      (n : ℕ) (ds : List ℕ) (rest : Bytes)
      → IsNumber ds
      → skip_blanks (spaces n ++ (numeral ds ++ rest)) ≡ numeral ds ++ rest
  unfolding skip_blanks
  skip_blanks-numeral n [] rest h = absurd h
  skip_blanks-numeral zero (d ∷ ds) rest h = ground arith
  skip_blanks-numeral (suc n) (d ∷ ds) rest h = skip_blanks-numeral n (d ∷ ds) rest h

  -- A date in Ingres' US format with its time, dd-mmm-yyyy hh:mm:ss with any separators that are not
  -- digits, becomes the broken-down time of these numbers, with the month's number from 0 on and the
  -- year from 1900 on. The month is the three letters of its English name in capitals or small
  -- letters, each number has at least one digit and fits an `int`, and at least one space stands
  -- behind the year.
  pub ingres_date-time :
      (day : List ℕ) (sep : ℕ) (name : Bytes) (index : ℕ) (year : List ℕ) (n : ℕ)
      (hour minute second : List ℕ) (c d : ℕ) (rest : Bytes)
      → IsNumber day
      → is_digit sep ≡ false
      → BeginsName name
      → Lacks sep name
      → Lacks 0 name
      → month_index name ≡ some index
      → IsNumber year
      → IsNumber hour
      → IsNumber minute
      → IsNumber second
      → is_digit c ≡ false
      → is_digit d ≡ false
      → EndsNumber rest
      → ingres_date timegm (
          numeral day
          ++ sep
            ∷ (name
                ++ sep
                  ∷ (numeral year
                      ++ b' '
                        ∷ (spaces n
                            ++ (numeral hour
                                ++ c ∷ (numeral minute ++ d ∷ (numeral second ++ rest)))))))
        ≡ some (
            timegm (record {
              sec = pos (place_value second);
              min = pos (place_value minute);
              hour = pos (place_value hour);
              mday = pos (place_value day);
              mon = pos index;
              year = subtract (pos (place_value year)) 1900;
            }))
  unfolding is_digit
  ingres_date-time day sep name index year n hour minute second c d rest hd es b l z m hy hh hm hs
        ec ed e =
      ingres_date-day day _ hd es
      ∙ read_month-named _ sep name _ index b l z m
      ∙ read_year-number _ _ year _ hy refl
      ∙ rw
          (skip_blanks-numeral (suc n) hour (c ∷ (numeral minute ++ d ∷ (numeral second ++ rest)))
            hh)
          (read_time-number _ hour minute second c d rest hh hm hs ec ed e)

  -- A month that is a word, but not the three letters of a month's name, is a null pointer that is read:
  -- a name written in full among them.
  pub ingres_date-unnamed :
      (day : List ℕ) (sep : ℕ) (name rest : Bytes)
      → IsNumber day
      → is_digit sep ≡ false
      → BeginsName name
      → Lacks sep name
      → Lacks 0 name
      → month_index name ≡ none
      → ingres_date timegm (numeral day ++ sep ∷ (name ++ sep ∷ rest)) ≡ none
  ingres_date-unnamed day sep name rest hd es b l z m =
      ingres_date-day day _ hd es ∙ read_month-unnamed _ sep name rest b l z m

  -- A date of digits only, dd-mm-yyyy, is read with the year negated, because the conversion of the year
  -- begins at the second `-`.
  pub ingres_date-number :
      (day month : List ℕ) (d : ℕ) (year : List ℕ)
      → IsNumber day
      → IsNumber month
      → IsNumber (d ∷ year)
      → ingres_date timegm (numeral day ++ b'-' ∷ (numeral month ++ b'-' ∷ numeral (d ∷ year)))
        ≡ some (
            timegm (record {
              sec = pos 0;
              min = pos 0;
              hour = pos 0;
              mday = pos (place_value day);
              mon = subtract (pos (place_value month)) 1;
              year = subtract (negate (place_value (d ∷ year))) 1900;
            }))
  unfolding is_digit
  ingres_date-number day month d year hd hm hy =
      ingres_date-day day _ hd refl
      ∙ read_month-number _ b'-' month _ hm refl
      ∙ read_year-negative _ _ d year hy
