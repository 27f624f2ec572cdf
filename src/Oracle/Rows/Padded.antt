-- ===== src/Oracle/Rows/Padded.antt =====
-- Columns that the server pads with blanks.
use libdbi_drivers.Prelude.{
  ℕ, zero, suc, true, false, some, [], ◌∷◌, ◌++◌, ◌≡◌, ◌≢◌, refl, ap, arith, ◌==◌, Bytes, length,
}
use libdbi_drivers.CString.{chop_blanks}
use libdbi_drivers.Dbi.{string}
use libdbi_drivers.Oracle.Rows.{Tm, copied, text_cell, string_cell, read_cell}

abbrev pub spaces : ℕ → Bytes
spaces zero = []
spaces (suc n) = b' ' ∷ spaces n

-- A text that ends with no blank.
abbrev pub IsChopped : Bytes → Type 0
IsChopped [] = Unit {0}
IsChopped (c ∷ []) = c ≢ b' '
IsChopped (c ∷ d ∷ s) = IsChopped (d ∷ s)

chop_blanks-spaces : (n : ℕ) → chop_blanks (spaces n) ≡ []
unfolding chop_blanks
chop_blanks-spaces zero = refl
chop_blanks-spaces (suc n) = rw (chop_blanks, chop_blanks-spaces n) refl

chop_blanks-padded : (s : Bytes) (n : ℕ) → IsChopped s → chop_blanks (s ++ spaces n) ≡ s
unfolding chop_blanks
chop_blanks-padded [] n h = chop_blanks-spaces n
chop_blanks-padded (c ∷ []) n h = rw (chop_blanks, chop_blanks-spaces n) (ground arith)
chop_blanks-padded (c ∷ d ∷ s) n h = rw (chop_blanks, chop_blanks-padded (d ∷ s) n h) refl

copied-append : (s rest : Bytes) → copied (length s) (s ++ rest) ≡ some s
unfolding copied
copied-append [] rest = refl
copied-append (c ∷ s) rest = rw (copied, copied-append s rest) refl

string_cell-padded :
    (Float Time : Type 0) (to_double : Bytes → Float) (mktime : Tm → Time) (c : ℕ) (s : Bytes)
    (n : ℕ)
    → c ≢ 0
    → IsChopped (c ∷ s)
    → string_cell Float Time to_double mktime true ((c ∷ s) ++ spaces n)
      ≡ text_cell Float Time to_double mktime true (c ∷ s) (length (c ∷ s))
string_cell-padded Float Time to_double mktime c s n h k =
    let z : (c == 0) ≡ false = ground arith in rw (z, chop_blanks-padded (c ∷ s) n k) refl

-- Where blanks are chopped, a text that does not end with one and is padded with any number of them is
-- given back as it is, with its own length. The text is not empty and does not begin with a zero.
pub read_cell-padded :
    (Float Time : Type 0) (to_double : Bytes → Float) (mktime : Tm → Time) (c : ℕ) (s : Bytes)
    (n : ℕ) (rest : Bytes)
    → c ≢ 0
    → IsChopped (c ∷ s)
    → read_cell Float Time to_double mktime true string (record {
      data_size = length ((c ∷ s) ++ spaces n);
      buffer = ((c ∷ s) ++ spaces n) ++ rest;
    })
      ≡ some (text_cell Float Time to_double mktime true (c ∷ s) (length (c ∷ s)))
unfolding read_cell
read_cell-padded Float Time to_double mktime c s n rest h k =
    rw (read_cell, copied-append ((c ∷ s) ++ spaces n) rest)
      (ap (λ cell. some cell) (string_cell-padded Float Time to_double mktime c s n h k))
