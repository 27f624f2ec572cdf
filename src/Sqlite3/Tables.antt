-- ===== src/Sqlite3/Tables.antt =====
-- `getTables` of drivers/sqlite3/dbd_sqlite3.c: the names of the tables that a SELECT statement reads. A
-- pointer into the statement is the list of bytes from there to the end.
mod Shorter
pub mod Terminates
pub mod Joined
use libdbi_drivers.Prelude.{
  ℕ, zero, suc, ◌+◌, Bool, true, false, not, ◌&&◌, ◌||◌, Option, none, some, List, [], ◌∷◌, ◌++◌,
  map, leb, ◌==◌, if◌then◌else◌, Bytes, codes, length,
}
use libdbi_drivers.CString.{equal, strstr, to_lower, take_while}

-- The size of the array that `find_result_field_types` passes: MAX_TABLES_IN_QUERY.
abbrev pub max_tables : ℕ
max_tables = 50

-- The names found, in the order of the statement; `overrun` is a read behind the end of
-- the statement or a write behind the end of the array.
pub data Parsed : Type 0 where
  listed : List Bytes → Parsed
  overrun out_of_fuel : Parsed

-- The loop `while ( opens > 0 )` from the character behind an opening bracket on: what stands before
-- the closing one and what follows it.
unfoldable pub closing : ℕ → Bytes → Option (Bytes × Bytes)
closing opens [] = none
closing opens (c ∷ s) = elim (c == b'(') [
  | true ↦ elim (closing (suc opens) s) [
    | none ↦ none
    | some (inside, after) ↦ some (c ∷ inside, after)
  ]
  | false ↦ elim (c == b')') [
    | false ↦ elim (closing opens s) [
      | none ↦ none
      | some (inside, after) ↦ some (c ∷ inside, after)
    ]
    | true ↦ elim opens [
      | zero ↦ some ([], s)
      | suc n ↦ elim (closing n s) [ none ↦ none | some (inside, after) ↦ some (c ∷ inside, after) ]
    ]
  ]
]

abbrev pub drop : ℕ → Bytes → Bytes
drop zero s = s
drop (suc n) [] = []
drop (suc n) (c ∷ s) = drop n s

abbrev pub in_word : ℕ → Bool
in_word c = not (c == b',' || c == b' ' || c == b')' || c == b';')

-- What is left behind the characters that pass a test.
unfoldable pub drop_while : (ℕ → Bool) → Bytes → Bytes
drop_while p [] = []
drop_while p (c ∷ s) = elim (p c) [ true ↦ drop_while p s | false ↦ c ∷ s ]

unfoldable pub is_one_of : Bytes → List Bytes → Bool
is_one_of word [] = false
is_one_of word (w ∷ ws) = equal w word || is_one_of word ws

abbrev pub endwords : List Bytes
endwords =
    codes "where"
    ∷ codes "group"
    ∷ codes "having"
    ∷ codes "union"
    ∷ codes "intersect"
    ∷ codes "except"
    ∷ codes "order"
    ∷ codes "limit"
    ∷ []

abbrev pub nottables : List Bytes
nottables =
    codes "natural"
    ∷ codes "left"
    ∷ codes "right"
    ∷ codes "full"
    ∷ codes "outer"
    ∷ codes "inner"
    ∷ codes "cross"
    ∷ codes "join"
    ∷ codes "as"
    ∷ []

-- The loop `while ( skip_flag == 1 )` behind a joined table: what is left at the comma or behind the
-- word `join`, and whether it was the word. A character is read in one of the three states.
pub data Skipping : Type 0 where
  between : Skipping
  -- inside brackets that start a word
  bracketed : ℕ → Skipping
  -- behind the given characters of a word
  within : Bytes → Skipping

abbrev pub is_join : Bytes → Bool
is_join word = equal (codes "join") (map to_lower word)

-- What one character does in a state: the next state, or the end at a comma or behind `join`.
pub data Moves : Type 0 where
  moves : Skipping → Moves
  at_comma at_join : Moves

unfoldable pub skip_char : Skipping → ℕ → Moves
skip_char between c =
    if c == b' '
    then moves between
    else if c == b','
    then at_comma
    else if c == b'('
    then moves (bracketed 0)
    else moves (within (c ∷ []))
skip_char (bracketed n) c =
    if c == b'('
    then moves (bracketed (suc n))
    else if c == b')'
    then elim n [ zero ↦ moves (within (b'(' ∷ [])) | suc m ↦ moves (bracketed m) ]
    else moves (bracketed n)
skip_char (within word) c =
    if c == b','
    then at_comma
    else if c == b' '
    then (if is_join word then at_join else moves between)
    else if c == b'('
    then (if is_join word then at_join else moves (bracketed 0))
    else moves (within (word ++ c ∷ []))

unfoldable pub skip_joined : Skipping → Bytes → Option (Bool × Bytes)
unfolding skip_char
skip_joined state [] = none
skip_joined state (c ∷ s) = elim (skip_char state c) [
  | moves next ↦ skip_joined next s
  | at_comma ↦ some (false, c ∷ s)
  | at_join ↦ some (true, c ∷ s)
]

-- The start of the function: `parse` goes on behind the first ` from `, and without one the tables
-- are those found so far.
abbrev pub behind_from : (Bytes → Parsed) → List Bytes → Option Bytes → Option Bytes → Parsed
behind_from parse tables (some at) upper = parse (drop 6 at)
behind_from parse tables none (some at) = parse (drop 6 at)
behind_from parse tables none none = listed tables

unfoldable pub select_from : (Bytes → Parsed) → List Bytes → Bytes → Parsed
unfolding strstr
select_from parse tables statement =
    behind_from parse tables (strstr statement (codes " from ")) (strstr statement (codes " FROM "))

-- The test of a word's end, and the `item++` behind it.
abbrev pub next_item : (Bytes → Parsed) → List Bytes → Bytes → Parsed
next_item parse tables [] = listed tables
next_item parse tables (c ∷ s) = parse s

-- A table name is stored, and what follows a joined table is skipped.
unfoldable pub add_table :
    (Bool → List Bytes → Bytes → Parsed) → Bool → List Bytes → Bytes → Bytes → Parsed
unfolding skip_joined
add_table parse join_flag tables word rest =
    let tables' = tables ++ word ∷ [] in
    elim (leb max_tables (length tables)) [
      | true ↦ overrun
      | false ↦ elim join_flag [
        | false ↦ next_item (parse false tables') tables' rest
        | true ↦ elim (skip_joined between rest) [
          | none ↦ overrun
          | some (join, rest') ↦ next_item (parse join tables') tables' rest'
        ]
      ]
    ]

-- The `actual word` branch: `parse` is the loop's next pass, with the flags `join_flag` and `as_flag`.
unfoldable pub actual_word :
    (Bool → Bool → List Bytes → Bytes → Parsed) → Bool → Bool → List Bytes → Bytes → Bytes → Parsed
unfolding is_one_of add_table
actual_word parse join_flag as_flag tables word rest =
    let lower = map to_lower word in
    elim (is_one_of lower endwords) [
      | true ↦ listed tables
      | false ↦ elim (is_one_of lower nottables) [
        | true ↦
            next_item
              (parse (join_flag || is_join word) (as_flag || equal (codes "as") lower) tables)
              tables rest
        | false ↦ elim as_flag [
          | true ↦ next_item (parse join_flag false tables) tables rest
          | false ↦ add_table (λ join. parse join false) join_flag tables word rest
        ]
      ]
    ]

-- The outer loop, on fuel.
unfoldable pub parse : ℕ → Bool → Bool → List Bytes → Bytes → Parsed
unfolding closing drop_while take_while select_from actual_word
parse zero join_flag as_flag tables item = out_of_fuel
parse (suc fuel) join_flag as_flag tables [] = listed tables
parse (suc fuel) join_flag as_flag tables (c ∷ s) = elim (c == b' ' || c == b',') [
  | true ↦ parse fuel join_flag as_flag tables s
  | false ↦ elim (c == b'(') [
    | true ↦ elim (closing 0 s) [
      | none ↦ overrun
      | some (substatement, after) ↦
          elim (select_from (parse fuel false false tables) tables substatement) [
            | listed tables' ↦ parse fuel join_flag as_flag tables' after
            | overrun ↦ overrun
            | out_of_fuel ↦ out_of_fuel
          ]
    ]
    | false ↦
        actual_word (parse fuel) join_flag as_flag tables (take_while in_word (c ∷ s))
          (drop_while in_word (c ∷ s))
  ]
]

-- Every pass takes a character off the statement.
unfoldable pub get_tables : Bytes → Parsed
unfolding select_from parse
get_tables statement = select_from (parse (length statement + 1) false false []) [] statement
