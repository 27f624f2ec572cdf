-- ===== src/Ingres/Date.antt =====
-- `ingres_date` of drivers/ingres/dbd_ingres.c, which reads Ingres' format dd-mmm-yyyy [hh:mm:ss].
-- `timegm` is a parameter.
pub mod Numbers
pub mod Fields
use libdbi_drivers.Prelude.{
  ℕ, ◌+◌, ◌-◌, Bool, true, false, Option, none, some, [], ◌∷◌, ◌++◌, ◌==◌, leb, if◌then◌else◌,
  Bytes,
}
use libdbi_drivers.Prelude.Int.{ℤ, pos, negsuc, cast}
use libdbi_drivers.CString.{is_digit, split_at}
use libdbi_drivers.CString.Number.{atol}
use libdbi_drivers.Ingres.Months.{in_word_set}

-- The members of a `struct tm` that are filled in; `tm_isdst` is always -1.
pub record Tm : Type 0 where
  pub sec : ℤ
  pub min : ℤ
  pub hour : ℤ
  pub mday : ℤ
  pub mon : ℤ
  pub year : ℤ

unfoldable pub atoi : Bytes → ℤ
unfolding cast atol
atoi s = cast 32 (atol s)

unfoldable pub subtract : ℤ → ℕ → ℤ
subtract (pos n) k = if leb k n then pos (n - k) else negsuc (k - n - 1)
subtract (negsuc n) k = negsuc (n + k)

-- `isdigit(*p)`
abbrev pub starts_digit : Bytes → Bool
starts_digit [] = false
starts_digit (c ∷ s) = is_digit c

-- `while(isdigit(*p)) ++p;`
unfoldable pub skip_digits : Bytes → Bytes
unfolding is_digit
skip_digits [] = []
skip_digits (c ∷ s) = elim (is_digit c) [ true ↦ skip_digits s | false ↦ c ∷ s ]

unfoldable pub skip_blanks : Bytes → Bytes
skip_blanks [] = []
skip_blanks (c ∷ s) = elim (c == b' ') [ true ↦ skip_blanks s | false ↦ c ∷ s ]

-- `while(*p && *p != sep) ++p;`
unfoldable pub up_to : ℕ → Bytes → Bytes
up_to sep [] = []
up_to sep (c ∷ s) = elim (c == sep) [ true ↦ c ∷ s | false ↦ up_to sep s ]

module _ (timegm : Tm → ℤ) where
  -- Behind the minutes.
  unfoldable pub read_seconds : Tm → Bytes → Option ℤ
  unfolding atoi
  read_seconds tm [] = some (pos 0)
  read_seconds tm (c ∷ p) = some (timegm (record tm { sec = atoi p }))

  -- Behind the hours.
  unfoldable pub read_minutes : Tm → Bytes → Option ℤ
  unfolding atoi skip_digits read_seconds
  read_minutes tm [] = some (pos 0)
  read_minutes tm (c ∷ p) = read_seconds (record tm { min = atoi p }) (skip_digits p)

  -- Behind the date and the spaces that follow it.
  unfoldable pub read_time : Tm → Bytes → Option ℤ
  unfolding atoi skip_digits read_minutes is_digit
  read_time tm p = elim (starts_digit p) [
    | true ↦ read_minutes (record tm { hour = atoi p }) (skip_digits p)
    | false ↦ some (timegm tm)
  ]

  -- Where the year is read.
  unfoldable pub read_year : ℤ → ℤ → Bytes → Option ℤ
  unfolding atoi subtract skip_digits skip_blanks read_time
  read_year mday mon [] = some (pos 0)
  read_year mday mon (c ∷ p) =
      read_time
        (record {
          sec = pos 0;
          min = pos 0;
          hour = pos 0;
          mday = mday;
          mon = mon;
          year = subtract (atoi (c ∷ p)) 1900;
        })
        (skip_blanks (skip_digits (c ∷ p)))

  -- The name of a month, with a zero written behind it, and what stands behind that. A name that is not
  -- known is a null pointer that is read, `none`.
  unfoldable pub read_named_month : ℤ → Option (Bytes × Bytes) → Option ℤ
  unfolding read_year in_word_set
  read_named_month mday none = some (pos 0)
  read_named_month mday (some (name, p)) = elim (in_word_set (name ++ 0 ∷ (p ++ 0 ∷ [])) 3) [
    | some (some index) ↦ read_year mday (pos index) p
    | _ ↦ none
  ]

  -- Behind the day. A month of digits leaves the pointer at the separator.
  unfoldable pub read_month : ℤ → Bytes → Option ℤ
  unfolding atoi subtract up_to split_at read_year read_named_month is_digit
  read_month mday [] = some (pos 0)
  read_month mday (sep ∷ p) = elim (starts_digit p) [
    | true ↦ read_year mday (subtract (atoi p) 1) (up_to sep p)
    | false ↦ read_named_month mday (split_at sep p)
  ]

  unfoldable pub ingres_date : Bytes → Option ℤ
  unfolding atoi skip_digits read_month is_digit
  ingres_date raw = elim (starts_digit raw) [
    | true ↦ read_month (atoi raw) (skip_digits raw)
    | false ↦ some (pos 0)
  ]
