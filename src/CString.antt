-- ===== src/CString.antt =====
-- The functions of <string.h>, <ctype.h> and <stdlib.h> that the drivers call, on C strings: the
-- list of a string's bytes, without the zero that ends it. `ctype` functions are those of the
-- "C" locale.
pub mod Laws
pub mod Number
use libdbi_drivers.Prelude.{
  ℕ, ◌+◌, ◌-◌, ◌*◌, Bool, true, false, ◌&&◌, ◌||◌, Option, none, some, List, [], ◌∷◌, ◌++◌, leb,
  ◌==◌, if◌then◌else◌, Bytes,
}

-- `!strcmp(a, b)`
unfoldable pub equal : Bytes → Bytes → Bool
equal [] [] = true
equal [] (y ∷ ys) = false
equal (x ∷ xs) [] = false
equal (x ∷ xs) (y ∷ ys) = x == y && equal xs ys

-- `!strncmp(p, s, strlen(p))`
unfoldable pub starts_with : Bytes → Bytes → Bool
starts_with [] s = true
starts_with (a ∷ p) [] = false
starts_with (a ∷ p) (c ∷ s) = a == c && starts_with p s

-- `strstr(s, needle)`: what the returned pointer points to.
unfoldable pub strstr : Bytes → Bytes → Option Bytes
unfolding starts_with
strstr [] needle = if starts_with needle [] then some [] else none
strstr (c ∷ s) needle = if starts_with needle (c ∷ s) then some (c ∷ s) else strstr s needle

-- `strstr(s, needle)`: what stands before the returned pointer, and what it points to.
unfoldable pub strstr_parts : Bytes → Bytes → Option (Bytes × Bytes)
unfolding starts_with
strstr_parts [] needle = if starts_with needle [] then some ([], []) else none
strstr_parts (c ∷ s) needle =
    let later : Option (Bytes × Bytes) = elim (strstr_parts s needle) [
      | none ↦ none
      | some (before, found) ↦ some (c ∷ before, found)
    ] in
    if starts_with needle (c ∷ s) then some ([], c ∷ s) else later

-- `strstr` under a test.
unfoldable pub contains : Bytes → Bytes → Bool
unfolding strstr
contains s needle = elim (strstr s needle) [ none ↦ false | some _ ↦ true ]

-- `strchr(s, c)` for a character other than zero, as what stands before it and what follows it.
unfoldable pub split_at : ℕ → Bytes → Option (Bytes × Bytes)
split_at c [] = none
split_at c (x ∷ s) =
    if x == c
    then some ([], s)
    else elim (split_at c s) [ none ↦ none | some (before, after) ↦ some (x ∷ before, after) ]

unfoldable pub is_digit : ℕ → Bool
is_digit c = leb b'0' c && leb c b'9'

unfoldable pub to_lower : ℕ → ℕ
to_lower c = if leb b'A' c && leb c b'Z' then c + 32 else c

unfoldable pub to_upper : ℕ → ℕ
to_upper c = if leb b'a' c && leb c b'z' then c - 32 else c

-- The C string that starts at an address: what stands before the first zero.
unfoldable pub c_string : Bytes → Bytes
c_string [] = []
c_string (c ∷ s) = if c == 0 then [] else c ∷ c_string s

-- The characters up to the first that fails a test.
unfoldable pub take_while : (ℕ → Bool) → Bytes → Bytes
take_while p [] = []
take_while p (c ∷ s) = let rest = take_while p s in if p c then c ∷ rest else []

-- `while (n && s[n-1] == ' ') --n;`, from the end of the text: what is left of it.
unfoldable pub chop_blanks : Bytes → Bytes
chop_blanks [] = []
chop_blanks (c ∷ s) = elim (chop_blanks s) [
  | [] ↦ if c == b' ' then [] else c ∷ []
  | d ∷ rest ↦ c ∷ d ∷ rest
]
