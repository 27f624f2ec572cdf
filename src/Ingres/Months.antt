-- ===== src/Ingres/Months.antt =====
-- The perfect hash of month names in drivers/ingres/months.gperf.c. A string is the memory from its
-- first character on, the zero that ends it and what lies behind it included.
pub mod Correct
use libdbi_drivers.Prelude.{
  ℕ, ◌+◌, ◌/◌, ◌%◌, Bool, true, false, ◌&&◌, ◌||◌, Option, none, some, List, [], ◌∷◌, ◌==◌, leb,
  if◌then◌else◌, Bytes, codes, get_elem?,
}
use libdbi_drivers.CString.{to_lower}

-- `gperf_downcase`
abbrev pub gperf_downcase : ℕ → ℕ
gperf_downcase c = to_lower c

-- `!gperf_case_strcmp(s1, s2)`, where `s2` is an entry of the word list.
unfoldable pub same_letters : Bytes → Bytes → Bool
unfolding to_lower
same_letters [] s2 = false
same_letters (c ∷ s1) [] = gperf_downcase c == 0
same_letters (c ∷ s1) (d ∷ s2) = gperf_downcase c == gperf_downcase d && same_letters s1 s2

abbrev pub no_value : ℕ
no_value = 34

-- The table of a hundred and four lines, by the letters that have a value: it has the same for both cases.
abbrev pub asso_value : ℕ → ℕ
asso_value c =
    if c == b'a' || c == b't' || c == b'y'
    then 0
    else if c == b'c' || c == b'l'
    then 4
    else if c == b'r' || c == b'u'
    then 5
    else if c == b'e' || c == b'n'
    then 10
    else if c == b'b' || c == b'g'
    then 14
    else if c == b'o' || c == b'p' || c == b'v'
    then 15
    else no_value

abbrev pub asso_values : ℕ → ℕ
asso_values c = asso_value (to_lower c)

-- `none` is a character behind the end of the memory.
unfoldable pub hash : Bytes → ℕ → Option ℕ
unfolding to_lower
hash (a ∷ b ∷ c ∷ str) len = some (len + asso_values c + asso_values b)
hash str len = none

-- The entries with a name; the others have an empty one, and 0.
unfoldable pub wordlist : ℕ → Bytes × ℕ
wordlist key =
    if key == 3
    then (codes "may", 4)
    else if key == 7
    then (codes "oct", 9)
    else if key == 8
    then (codes "mar", 2)
    else if key == 12
    then (codes "jul", 6)
    else if key == 13
    then (codes "jan", 0)
    else if key == 17
    then (codes "dec", 11)
    else if key == 18
    then (codes "jun", 5)
    else if key == 22
    then (codes "aug", 7)
    else if key == 23
    then (codes "apr", 3)
    else if key == 27
    then (codes "feb", 1)
    else if key == 28
    then (codes "sep", 8)
    else if key == 33
    then (codes "nov", 10)
    else ([], 0)

-- `((*str ^ *s) & ~32) == 0`: the two characters differ in bit 5 at most.
abbrev pub differ_in_case : Bytes → Bytes → Bool
differ_in_case [] s = false
differ_in_case (a ∷ str) [] = a % 32 == 0 && a / 64 == 0
differ_in_case (a ∷ str) (b ∷ s) = a % 32 == b % 32 && a / 64 == b / 64

abbrev pub matched : Bytes → Bytes × ℕ → Option ℕ
matched str (name, index) =
    if differ_in_case str name && same_letters str name then some index else none

-- The index of the entry that is found.
unfoldable pub in_word_set : Bytes → ℕ → Option (Option ℕ)
unfolding hash wordlist same_letters
in_word_set str len =
    if leb len 3 && leb 3 len
    then elim (hash str len) [
      | none ↦ none
      | some key ↦ some (if leb key 33 then matched str (wordlist key) else none)
    ]
    else some none
