-- ===== src/Freetds/Version/Found.antt =====
-- The version number of a server's text.
use mathlib.Core.List.{reverse, reverse-append, reverse-reverse, append_assoc, append-nil}
use libdbi_drivers.Prelude.{
  ℕ, ◌≤◌, false, [], ◌∷◌, ◌++◌, ◌≡◌, ◌≢◌, arith, Bytes, length, length-append,
}
use libdbi_drivers.CString.{is_digit}
use libdbi_drivers.CString.Laws.{Lacks, split_at-Lacks}
use libdbi_drivers.Freetds.Version.{without_last, digits_before, from_start, freetds_version_number}
use libdbi_drivers.Pgsql.Version.{is_version}
use libdbi_drivers.Pgsql.Version.Found.{
  All, Ends, take_while-All, All-append, All-reverse, All-is_version, is_version-dot, Lacks-append,
  Lacks-digits,
}

digits_before-number :
    (pre num : Bytes) (sep : ℕ)
    → All is_digit num
    → is_digit sep ≡ false
    → digits_before (pre ++ sep ∷ num) ≡ num
unfolding digits_before
digits_before-number [] num sep h e =
    rw
      (
        ← append-nil (reverse num),
        take_while-All is_digit (reverse num) [] (All-reverse is_digit num h) tt,
      )
      (reverse-reverse num)
digits_before-number (c ∷ pre) num sep h e =
    rw (reverse-append pre (sep ∷ num), reverse-append (sep ∷ []) num)
      (rw (append_assoc (reverse num) (sep ∷ []) (reverse pre)) (
        rw
          (take_while-All is_digit (reverse num) (sep ∷ reverse pre) (All-reverse is_digit num h) e)
          (reverse-reverse num)))

from_start-number :
    (pre num tail rest : Bytes) (sep : ℕ)
    → All is_digit num
    → is_digit sep ≡ false
    → All is_version tail
    → Ends is_version rest
    → from_start (pre ++ sep ∷ num) (tail ++ rest) ≡ num ++ b'.' ∷ tail
unfolding from_start
from_start-number pre num tail rest sep h e v ends =
    rw (digits_before-number pre num sep h e, ← append_assoc num (b'.' ∷ tail) rest)
      (take_while-All is_version (num ++ b'.' ∷ tail) rest
        (All-append is_version num (b'.' ∷ tail) (All-is_version num h) (is_version-dot, v)) ends)

-- In a text whose first dot is the one of a version number that something other than a digit
-- precedes, that number is copied without its last character.
pub freetds_version_number-found :
    (limit : ℕ) (pre num tail rest : Bytes) (sep : ℕ)
    → Lacks b'.' pre
    → sep ≢ b'.'
    → is_digit sep ≡ false
    → All is_digit num
    → All is_version tail
    → Ends is_version rest
    → length (num ++ b'.' ∷ tail) ≤ limit
    → freetds_version_number limit ((pre ++ sep ∷ num) ++ b'.' ∷ (tail ++ rest))
      ≡ without_last (num ++ b'.' ∷ tail)
unfolding freetds_version_number
freetds_version_number-found limit pre num tail rest sep lacks ne e h v ends fits =
    rw
      (
        split_at-Lacks b'.' (pre ++ sep ∷ num) (tail ++ rest)
            (Lacks-append b'.' pre (sep ∷ num) lacks (ne, Lacks-digits num h)),
        freetds_version_number,
        from_start-number pre num tail rest sep h e v ends,
      )
      (ground (arith, length-append {0} num (b'.' ∷ tail)))
