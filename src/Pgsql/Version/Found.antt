-- ===== src/Pgsql/Version/Found.antt =====
-- The version number of a server's text.
use mathlib.Core.List.{reverse, reverse-append, reverse-reverse, append_assoc}
use libdbi_drivers.Prelude.{
  ℕ, ◌<◌, Bool, true, false, some, [], ◌∷◌, ◌++◌, ◌≡◌, ◌≢◌, refl, ap, arith, Bytes, length,
  length-append,
}
use libdbi_drivers.CString.{is_digit, take_while}
use libdbi_drivers.CString.Laws.{Lacks, split_at-Lacks}
use libdbi_drivers.Pgsql.Version.{is_version, back_to_start, up_to_stop, version_number}

abbrev pub All : (ℕ → Bool) → Bytes → Type 0
All p [] = Unit {0}
All p (c ∷ s) = (p c ≡ true) × All p s

-- Nothing, or a character that fails the test.
abbrev pub Ends : (ℕ → Bool) → Bytes → Type 0
Ends p [] = Unit {0}
Ends p (c ∷ s) = p c ≡ false

pub take_while-All :
    (p : ℕ → Bool) (s rest : Bytes) → All p s → Ends p rest → take_while p (s ++ rest) ≡ s
unfolding take_while
take_while-All p [] [] h e = refl
take_while-All p [] (c ∷ rest) h e = rw e
take_while-All p (c ∷ s) rest (h, hs) e = rw (h, take_while-All p s rest hs e)

pub All-append : (p : ℕ → Bool) (s t : Bytes) → All p s → All p t → All p (s ++ t)
All-append p [] t h k = k
All-append p (c ∷ s) t (h, hs) k = (h, All-append p s t hs k)

pub All-reverse : (p : ℕ → Bool) (s : Bytes) → All p s → All p (reverse s)
All-reverse p [] h = tt
All-reverse p (c ∷ s) (h, hs) =
    rw (reverse-append (c ∷ []) s) (All-append p (reverse s) (c ∷ []) (All-reverse p s hs) (h, tt))

is_version-digit : (c : ℕ) → is_digit c ≡ true → is_version c ≡ true
unfolding is_version
is_version-digit c h = ground arith

pub All-is_version : (s : Bytes) → All is_digit s → All is_version s
All-is_version [] h = tt
All-is_version (c ∷ s) (h, hs) = (is_version-digit c h, All-is_version s hs)

pub is_version-dot : is_version b'.' ≡ true
unfolding is_version
is_version-dot = refl

pub Lacks-append : (c : ℕ) (s t : Bytes) → Lacks c s → Lacks c t → Lacks c (s ++ t)
Lacks-append c [] t h k = k
Lacks-append c (x ∷ s) t (h, hs) k = (h, Lacks-append c s t hs k)

pub Lacks-digits : (s : Bytes) → All is_digit s → Lacks b'.' s
unfolding is_digit
Lacks-digits [] h = tt
Lacks-digits (c ∷ s) (h, hs) = (ground arith, Lacks-digits s hs)

up_to_stop-All :
    (c : ℕ) (s rest : Bytes)
    → All is_version s
    → Ends is_version rest
    → up_to_stop (c ∷ s ++ rest) ≡ c ∷ s
unfolding up_to_stop
up_to_stop-All c s rest h e = ap (◌∷◌ c) (take_while-All is_version s rest h e)

-- The number before the dot, read from behind a character that is no digit.
back_to_start-reverse :
    (num r : Bytes) (sep d : ℕ)
    → All is_digit num
    → is_digit sep ≡ false
    → back_to_start (d ∷ (reverse num ++ sep ∷ r)) ≡ some (num ++ d ∷ [])
unfolding back_to_start
back_to_start-reverse num r sep d h e =
    rw (take_while-All is_digit (reverse num) (sep ∷ r) (All-reverse is_digit num h) e)
      (rw reverse-reverse)

back_to_start-digits :
    (pre num : Bytes) (sep d : ℕ)
    → All is_digit num
    → is_digit sep ≡ false
    → back_to_start (reverse (pre ++ sep ∷ (num ++ d ∷ []))) ≡ some (num ++ d ∷ [])
back_to_start-digits pre num sep d h e =
    rw
      (
        reverse-append pre (sep ∷ (num ++ d ∷ [])),
        reverse-append (sep ∷ []) (num ++ d ∷ []),
        reverse-append num (d ∷ []),
      )
      (rw (append_assoc (reverse num) (sep ∷ []) (reverse pre))
        (back_to_start-reverse num (reverse pre) sep d h e))

up_to_stop-number :
    (num tail rest : Bytes) (d : ℕ)
    → All is_digit num
    → is_digit d ≡ true
    → All is_version tail
    → Ends is_version rest
    → up_to_stop ((num ++ d ∷ []) ++ b'.' ∷ (tail ++ rest)) ≡ num ++ d ∷ b'.' ∷ tail
up_to_stop-number [] tail rest d h k v e = up_to_stop-All d (b'.' ∷ tail) rest (is_version-dot, v) e
up_to_stop-number (n ∷ num) tail rest d (h, hs) k v e =
    rw (append_assoc num (d ∷ []) (b'.' ∷ (tail ++ rest))) (
      rw (← append_assoc num (d ∷ b'.' ∷ tail) rest) (
        up_to_stop-All n (num ++ d ∷ b'.' ∷ tail) rest
          (All-append is_version num (d ∷ b'.' ∷ tail) (All-is_version num hs)
            (is_version-digit d k, (is_version-dot, v)))
          e))

-- In a text whose first dot is the one of a version number, that number is what is copied: the
-- digits before the dot, back to the first other character, and the digits and dots behind it.
-- The condition is that it is shorter than the array of `limit` bytes, so that a terminating zero fits.
pub version_number-found :
    (limit : ℕ) (pre num tail rest : Bytes) (sep d : ℕ)
    → Lacks b'.' pre
    → sep ≢ b'.'
    → is_digit sep ≡ false
    → All is_digit num
    → is_digit d ≡ true
    → All is_version tail
    → Ends is_version rest
    → length (num ++ d ∷ b'.' ∷ tail) < limit
    → version_number limit ((pre ++ sep ∷ (num ++ d ∷ [])) ++ b'.' ∷ (tail ++ rest))
      ≡ some (num ++ d ∷ b'.' ∷ tail)
unfolding version_number
version_number-found limit pre num tail rest sep d lacks ne e h k v ends fits =
    let before =
      Lacks-append b'.' pre (sep ∷ (num ++ d ∷ [])) lacks
        (ne, Lacks-append b'.' num (d ∷ []) (Lacks-digits num h) (Lacks-digits (d ∷ []) (k, tt))) in
    rw
      (
        split_at-Lacks b'.' (pre ++ sep ∷ (num ++ d ∷ [])) (tail ++ rest) before,
        back_to_start-digits pre num sep d h e,
        up_to_stop-number num tail rest d h k v ends,
        version_number,
      )
      (ground (arith, length-append {0} num (d ∷ b'.' ∷ tail)))

-- Whatever the text, what is left in the array is shorter than its `limit` bytes.
pub version_number-le :
    (limit : ℕ) (text s : Bytes) → 0 < limit → version_number limit text ≡ some s → length s < limit
unfolding version_number
version_number-le limit text s pos h = ground arith
