-- ===== src/CString/Number.antt =====
-- `atol` and its kin: leading white space, a sign and the digits that follow. A value that the
-- result type cannot hold is undefined in C; here it is the number itself.
use libdbi_drivers.Prelude.{
  ℕ, zero, suc, ◌+◌, ◌-◌, ◌*◌, ◌^◌, ◌<◌, Bool, true, false, ◌&&◌, ◌||◌, List, [], ◌∷◌, ◌++◌, ◌≡◌,
  ap, ◌∙◌, arith, leb, ◌==◌, if◌then◌else◌, Bytes, length,
}
use libdbi_drivers.Prelude.Int.{ℤ, pos, negsuc}
use libdbi_drivers.CString.{is_digit}
use native.Mathlib.Nat.{pow-suc}

-- `isspace`
unfoldable pub is_space : ℕ → Bool
is_space c = c == b' ' || leb 9 c && leb c 13

unfoldable pub digits_value : ℕ → Bytes → ℕ
unfolding is_digit
digits_value acc [] = acc
digits_value acc (c ∷ s) = if is_digit c then digits_value (acc * 10 + (c - b'0')) s else acc

abbrev pub negate : ℕ → ℤ
negate zero = pos 0
negate (suc n) = negsuc n

unfoldable pub signed_value : Bytes → ℤ
unfolding digits_value
signed_value [] = pos 0
signed_value (c ∷ s) =
    if c == b'-'
    then negate (digits_value 0 s)
    else if c == b'+'
    then pos (digits_value 0 s)
    else pos (digits_value 0 (c ∷ s))

unfoldable pub atol : Bytes → ℤ
unfolding is_space signed_value
atol [] = pos 0
atol (c ∷ s) = let rest = atol s in if is_space c then rest else signed_value (c ∷ s)

-- The value of decimal digits by their places.
abbrev pub place_value : List ℕ → ℕ
place_value [] = 0
place_value (d ∷ ds) = d * 10 ^ length ds + place_value ds

abbrev pub AreDigits : List ℕ → Type 0
AreDigits [] = Unit {0}
AreDigits (d ∷ ds) = (d < 10) × AreDigits ds

-- The characters of a list of digits.
abbrev pub numeral : List ℕ → Bytes
numeral [] = []
numeral (d ∷ ds) = (b'0' + d) ∷ numeral ds

-- What ends a number.
abbrev pub EndsNumber : Bytes → Type 0
EndsNumber [] = Unit {0}
EndsNumber (c ∷ s) = is_digit c ≡ false

pub is_digit-numeral : (d : ℕ) → d < 10 → is_digit (b'0' + d) ≡ true
unfolding is_digit
is_digit-numeral d h = ground arith

step_value : (acc d p v : ℕ) → (acc * 10 + d) * p + v ≡ acc * (p * 10) + (d * p + v)
step_value acc d p v = grind arith

pub digits_value-numeral :
    (acc : ℕ) (ds : List ℕ) (rest : Bytes)
    → AreDigits ds
    → EndsNumber rest
    → digits_value acc (numeral ds ++ rest) ≡ acc * 10 ^ length ds + place_value ds
unfolding digits_value
digits_value-numeral acc [] [] h e = omega arith
digits_value-numeral acc [] (c ∷ rest) h e = rw e (omega arith)
digits_value-numeral acc (d ∷ ds) rest (h, hs) e =
    let plain : b'0' + d - b'0' ≡ d = omega arith in
    rw (is_digit-numeral d h, plain, pow-suc)
      (digits_value-numeral (acc * 10 + d) ds rest hs e
        ∙ step_value acc d (10 ^ length ds) (place_value ds))

-- A sign and digits, as a server writes a number.
abbrev pub integer_text : Bool → List ℕ → Bytes
integer_text true ds = b'-' ∷ numeral ds
integer_text false ds = numeral ds

abbrev pub integer_value : Bool → List ℕ → ℤ
integer_value true ds = negate (place_value ds)
integer_value false ds = pos (place_value ds)

digits_value-place_value :
    (ds : List ℕ) (rest : Bytes)
    → AreDigits ds
    → EndsNumber rest
    → digits_value 0 (numeral ds ++ rest) ≡ place_value ds
digits_value-place_value ds rest h e = digits_value-numeral 0 ds rest h e ∙ omega arith

-- `atol` reads the number that a sign and at least one digit denote, up to what ends it.
pub atol-integer_text :
    (minus : Bool) (d : ℕ) (ds : List ℕ) (rest : Bytes)
    → AreDigits (d ∷ ds)
    → EndsNumber rest
    → atol (integer_text minus (d ∷ ds) ++ rest) ≡ integer_value minus (d ∷ ds)
unfolding atol
atol-integer_text true d ds rest h e = ap negate (digits_value-place_value (d ∷ ds) rest h e)
atol-integer_text false d ds rest h e = ground (arith, digits_value-place_value (d ∷ ds) rest h e)
