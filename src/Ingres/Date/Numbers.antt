-- ===== src/Ingres/Date/Numbers.antt =====
-- The numbers in a date: what `atoi` makes of their digits, and what stands behind them.
use mathlib.Core.List.{append-nil}
use libdbi_drivers.Prelude.{
  ℕ, zero, suc, ◌<◌, ◌^◌, true, false, List, [], ◌∷◌, ◌++◌, ◌≡◌, refl, ap, ◌∙◌, arith, Bytes,
}
use libdbi_drivers.Prelude.Int.{ℤ, pos, cast, Fits, cast32}
use libdbi_drivers.CString.{is_digit}
use libdbi_drivers.CString.Number.{
  AreDigits, numeral, place_value, EndsNumber, is_digit-numeral, atol-integer_text, negate,
}
use libdbi_drivers.Ingres.Date.{atoi, starts_digit, skip_digits, up_to}

-- At least one digit, of a value that an `int` holds.
abbrev pub IsNumber : List ℕ → Type 0
IsNumber [] = ⊥
IsNumber (d ∷ ds) = AreDigits (d ∷ ds) × (place_value (d ∷ ds) < 2 ^ 31)

pub atoi-numeral :
    (ds : List ℕ) (rest : Bytes)
    → IsNumber ds
    → EndsNumber rest
    → atoi (numeral ds ++ rest) ≡ pos (place_value ds)
unfolding atoi
atoi-numeral [] rest h e = absurd h
atoi-numeral (d ∷ ds) rest (h, k) e =
    ap (λ (z : ℤ). cast 32 z) (atol-integer_text false d ds rest h e)
    ∙ cast32 (pos (place_value (d ∷ ds))) k

negate-Fits : (n : ℕ) → n < 2 ^ 31 → Fits 32 (negate n)
negate-Fits zero h = ground arith
negate-Fits (suc n) h = omega (arith, h)

pub atoi-negative :
    (d : ℕ) (ds : List ℕ)
    → IsNumber (d ∷ ds)
    → atoi (b'-' ∷ numeral (d ∷ ds)) ≡ negate (place_value (d ∷ ds))
unfolding atoi
atoi-negative d ds (h, k) =
    ap (λ (z : ℤ). cast 32 z) (rw append-nil at (atol-integer_text true d ds [] h tt))
    ∙ cast32 (negate (place_value (d ∷ ds))) (negate-Fits (place_value (d ∷ ds)) k)

skip_digits-numeral :
    (ds : List ℕ) (rest : Bytes)
    → AreDigits ds
    → EndsNumber rest
    → skip_digits (numeral ds ++ rest) ≡ rest
unfolding skip_digits
skip_digits-numeral [] [] h e = refl
skip_digits-numeral [] (c ∷ rest) h e = ground arith
skip_digits-numeral (d ∷ ds) rest (h, hs) e =
    rw (skip_digits, is_digit-numeral d h) (skip_digits-numeral ds rest hs e)

-- The digits of a number.
pub IsNumber-AreDigits : (ds : List ℕ) → IsNumber ds → AreDigits ds
IsNumber-AreDigits [] h = absurd h
IsNumber-AreDigits (d ∷ ds) h = h.0

pub skip_number :
    (ds : List ℕ) (rest : Bytes)
    → IsNumber ds
    → EndsNumber rest
    → skip_digits (numeral ds ++ rest) ≡ rest
skip_number ds rest h e = skip_digits-numeral ds rest (IsNumber-AreDigits ds h) e

pub starts_digit-numeral :
    (ds : List ℕ) (rest : Bytes) → IsNumber ds → starts_digit (numeral ds ++ rest) ≡ true
starts_digit-numeral [] rest h = absurd h
starts_digit-numeral (d ∷ ds) rest ((h, hs), k) = is_digit-numeral d h

starts_digit-not : (c : ℕ) (s : Bytes) → is_digit c ≡ false → starts_digit (c ∷ s) ≡ false
starts_digit-not c s h = h

pub up_to-numeral :
    (sep : ℕ) (ds : List ℕ) (rest : Bytes)
    → AreDigits ds
    → is_digit sep ≡ false
    → up_to sep (numeral ds ++ sep ∷ rest) ≡ sep ∷ rest
unfolding up_to is_digit
up_to-numeral sep [] rest h e = ground arith
up_to-numeral sep (d ∷ ds) rest (h, hs) e = ground (arith, up_to-numeral sep ds rest hs e)
