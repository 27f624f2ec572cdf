-- ===== src/Sqlite3/Wildcard.antt =====
-- `wild_case_compare` of drivers/sqlite3/dbd_sqlite3.c: the test of a file name against the
-- pattern of `dbd_list_dbs`. A pair of pointers into a string is the list of bytes between them.
pub mod Like
mod Verdicts
pub mod Correct
use libdbi_drivers.Prelude.{ℕ, Bool, true, false, ◌&&◌, [], ◌∷◌, ltb, ◌==◌, Bytes}

-- The `int` that the function returns: 0, 1 and -1.
pub data Verdict : Type 0 where
  found not_here not_any : Verdict

-- `return (str != str_end ? 1 : 0)`
abbrev at_end : Bytes → Verdict
at_end [] = found
at_end (c ∷ s) = not_here

-- `*str == cmp`, where `cmp` is an `unsigned char` and the other a `char`, which is taken as signed:
-- from 128 on one is negative and the other is not.
unfoldable pub same_char : ℕ → ℕ → Bool
same_char c cmp = ltb c 128 && c == cmp

-- `wildstr[0] == wild_many`, where the terminating zero stands behind the pattern.
abbrev starts_many : Bytes → Bool
starts_many [] = false
starts_many (w ∷ ws) = w == b'%'

-- The `do`-`while` loop behind a `%`: `cmp` is the character to find, `again` the recursive call
-- on what follows it.
unfoldable pub search_many : (Bytes → Verdict) → Bool → ℕ → Bytes → Verdict
unfolding same_char
search_many again many cmp [] = not_any
search_many again many cmp (c ∷ s) =
    let later = search_many again many cmp s in
    elim (same_char c cmp) [
      | true ↦ elim (again s) [
        | not_here ↦ elim many [ true ↦ not_any | false ↦ later ]
        | found ↦ found
        | not_any ↦ not_any
      ]
      | false ↦ later
    ]

-- One literal character of the inner loop: `next` is the loop's next pass.
unfoldable pub literal : (Bytes → Verdict) → ℕ → Bytes → Verdict
literal next w [] = not_here
literal next w (c ∷ s) = elim (w == c) [ true ↦ next s | false ↦ not_here ]

-- One character for a `_`; `ended` is what is returned at the end of the string.
unfoldable pub skip_one : (Bytes → Verdict) → Verdict → Bytes → Verdict
skip_one next ended [] = ended
skip_one next ended (c ∷ s) = next s

-- `str == str_end` is tested before the search for a literal behind a `%`.
unfoldable pub find_literal : (Bytes → Verdict) → Bytes → ℕ → Bytes → Verdict
unfolding search_many
find_literal again rest cmp [] = not_any
find_literal again rest cmp (c ∷ s) = search_many again (starts_many rest) cmp (c ∷ s)

-- `compare` is the outer loop, with its variable `result`; every pass of the loops inside it takes
-- a character off the pattern, so they are the same recursion. `after_many` is the `for` loop
-- that drops the wild cards behind a `%`, with what comes after it.
unfoldable mutual
  pub compare : ℕ → Verdict → Bytes → Bytes → Verdict
  compare escape result [] str = at_end str
  compare escape result (w ∷ []) str = elim (w == b'%') [
    | true ↦ after_many escape [] str
    | false ↦ elim (w == b'_') [
      | true ↦ skip_one (compare escape result []) result str
      | false ↦ literal (compare escape not_here []) w str
    ]
  ]
  compare escape result (w ∷ d ∷ ws) str = elim (w == b'%') [
    | true ↦ after_many escape (d ∷ ws) str
    | false ↦ elim (w == b'_') [
      | true ↦ skip_one (compare escape result (d ∷ ws)) result str
      | false ↦ elim (w == escape) [
        | true ↦ literal (compare escape not_here ws) d str
        | false ↦ literal (compare escape not_here (d ∷ ws)) w str
      ]
    ]
  ]

  pub after_many : ℕ → Bytes → Bytes → Verdict
  after_many escape [] str = found
  after_many escape (w ∷ []) str = elim (w == b'%') [
    | true ↦ after_many escape [] str
    | false ↦ elim (w == b'_') [
      | true ↦ skip_one (after_many escape []) not_any str
      | false ↦ find_literal (compare escape not_any []) [] w str
    ]
  ]
  after_many escape (w ∷ d ∷ ws) str = elim (w == b'%') [
    | true ↦ after_many escape (d ∷ ws) str
    | false ↦ elim (w == b'_') [
      | true ↦ skip_one (after_many escape (d ∷ ws)) not_any str
      | false ↦ elim (same_char escape w) [
        | true ↦ find_literal (compare escape not_any ws) ws d str
        | false ↦ find_literal (compare escape not_any (d ∷ ws)) (d ∷ ws) w str
      ]
    ]
  ]

unfoldable pub wild_case_compare : Bytes → Bytes → ℕ → Verdict
unfolding compare after_many literal skip_one find_literal
wild_case_compare str wildstr escape = compare escape not_any wildstr str
