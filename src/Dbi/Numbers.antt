-- ===== src/Dbi/Numbers.antt =====
-- The `switch` on the size of an integer and of a decimal, which the row readers of sqlite3,
-- sqlite, pgsql, mysql and msql have in common.
use mathlib.Core.List.{append-nil}
use libdbi_drivers.Prelude.{ℕ, Bool, Option, none, some, List, [], ◌∷◌, ◌≡◌, refl, ap, Bytes}
use libdbi_drivers.Prelude.Int.{ℤ, cast, Fits, cast8, cast16, cast32, cast64}
use libdbi_drivers.CString.Number.{atol, AreDigits, integer_text, integer_value, atol-integer_text}
use libdbi_drivers.Dbi.{
  Attribs, integer_size1, integer_size2, integer_size3, integer_size4, integer_size8, decimal_size4,
  decimal_size8, Data, d_char, d_short, d_long, d_longlong, d_float, d_double, Libdbi,
}
use libdbi_drivers.Dbi.Sized.{IsIntegerSize, IsDecimalSize}

module _ (lib : Libdbi) where
  open lib use {Float, Time}

  unfoldable pub read_integer : Attribs → Bytes → Option (Data Float Time)
  read_integer (integer_size1 ∷ []) raw = some (d_char (cast 8 (atol raw)))
  read_integer (integer_size2 ∷ []) raw = some (d_short (cast 16 (atol raw)))
  read_integer (integer_size3 ∷ []) raw = some (d_long (cast 32 (atol raw)))
  read_integer (integer_size4 ∷ []) raw = some (d_long (cast 32 (atol raw)))
  read_integer (integer_size8 ∷ []) raw = some (d_longlong (cast 64 (atol raw)))
  read_integer sizeattrib raw = none

  unfoldable pub read_decimal : Attribs → Bytes → Option (Data Float Time)
  read_decimal (decimal_size4 ∷ []) raw = some (d_float (lib.to_float raw))
  read_decimal (decimal_size8 ∷ []) raw = some (d_double (lib.to_double raw))
  read_decimal sizeattrib raw = none

  pub read_integer-some :
      (a : Attribs) (raw : Bytes)
      → IsIntegerSize a
      → (d : Data Float Time) × (read_integer a raw ≡ some d)
  unfolding read_integer
  read_integer-some (integer_size1 ∷ []) raw h = (_, refl)
  read_integer-some (integer_size2 ∷ []) raw h = (_, refl)
  read_integer-some (integer_size3 ∷ []) raw h = (_, refl)
  read_integer-some (integer_size4 ∷ []) raw h = (_, refl)
  read_integer-some (integer_size8 ∷ []) raw h = (_, refl)
  read_integer-some _ raw h = absurd h

  pub read_decimal-some :
      (a : Attribs) (raw : Bytes)
      → IsDecimalSize a
      → (d : Data Float Time) × (read_decimal a raw ≡ some d)
  unfolding read_decimal
  read_decimal-some (decimal_size4 ∷ []) raw h = (_, refl)
  read_decimal-some (decimal_size8 ∷ []) raw h = (_, refl)
  read_decimal-some _ raw h = absurd h

  -- The values of a size, and the member of the union that holds them.
  abbrev pub FitsSize : Attribs → ℤ → Type 0
  FitsSize (integer_size1 ∷ []) z = Fits 8 z
  FitsSize (integer_size2 ∷ []) z = Fits 16 z
  FitsSize (integer_size3 ∷ []) z = Fits 32 z
  FitsSize (integer_size4 ∷ []) z = Fits 32 z
  FitsSize (integer_size8 ∷ []) z = Fits 64 z
  FitsSize a z = ⊥

  abbrev pub integer_data : Attribs → ℤ → Option (Data Float Time)
  integer_data (integer_size1 ∷ []) z = some (d_char z)
  integer_data (integer_size2 ∷ []) z = some (d_short z)
  integer_data (integer_size3 ∷ []) z = some (d_long z)
  integer_data (integer_size4 ∷ []) z = some (d_long z)
  integer_data (integer_size8 ∷ []) z = some (d_longlong z)
  integer_data a z = none

  read_integer-atol :
      (a : Attribs) (raw : Bytes) (z : ℤ)
      → atol raw ≡ z
      → FitsSize a z
      → read_integer a raw ≡ integer_data a z
  unfolding read_integer
  read_integer-atol (integer_size1 ∷ []) raw z e h =
      rw e (ap (λ (n : ℤ). some (d_char n)) (cast8 z h))
  read_integer-atol (integer_size2 ∷ []) raw z e h =
      rw e (ap (λ (n : ℤ). some (d_short n)) (cast16 z h))
  read_integer-atol (integer_size3 ∷ []) raw z e h =
      rw e (ap (λ (n : ℤ). some (d_long n)) (cast32 z h))
  read_integer-atol (integer_size4 ∷ []) raw z e h =
      rw e (ap (λ (n : ℤ). some (d_long n)) (cast32 z h))
  read_integer-atol (integer_size8 ∷ []) raw z e h =
      rw e (ap (λ (n : ℤ). some (d_longlong n)) (cast64 z h))
  read_integer-atol _ raw z e h = absurd h

  -- A number that the size can hold is read without loss.
  pub read_integer-integer_text :
      (a : Attribs) (minus : Bool) (d : ℕ) (ds : List ℕ)
      → AreDigits (d ∷ ds)
      → FitsSize a (integer_value minus (d ∷ ds))
      → read_integer a (integer_text minus (d ∷ ds)) ≡ integer_data a (integer_value minus (d ∷ ds))
  read_integer-integer_text a minus d ds h fits =
      read_integer-atol a _ _ (rw append-nil at (atol-integer_text minus d ds [] h tt)) fits
