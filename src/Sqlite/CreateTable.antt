-- ===== src/Sqlite/CreateTable.antt =====
-- `get_field_type` of drivers/sqlite/dbd_sqlite.c: the search of a CREATE TABLE statement for the type
-- of a column.
pub mod Columns
pub mod Terminates
use libdbi_drivers.Prelude.{
  ℕ, zero, suc, Bool, true, false, ◌||◌, Option, none, some, [], ◌∷◌, ◌++◌, ◌==◌, if◌then◌else◌,
  Bytes, length,
}
use libdbi_drivers.CString.{equal, split_at, c_string}

-- What a read of the statement's copy gives: a character behind its end, a null pointer, or a text.
pub data Fetched : Type 0 where
  outside absent : Fetched
  fetched : Bytes → Fetched

-- What stands behind a token: the characters behind the comma that `strtok` overwrote, those behind a
-- zero written earlier, where `strtok` finds no more, or the end of the copy.
pub data Rest : Type 0 where
  comma zeroed : Bytes → Rest
  finish : Rest

-- A token from its first character on.
unfoldable pub token : Bytes → Bytes × Rest
token [] = ([], finish)
token (c ∷ s) =
    let (word, rest) = token s in
    if c == 0 then ([], zeroed s) else if c == b',' then ([], comma s) else (c ∷ word, rest)

-- `strtok(item, ",")` on what is left of the copy.
unfoldable pub strtok : Bytes → Option (Bytes × Rest)
unfolding token
strtok [] = none
strtok (c ∷ s) =
    let next = strtok s in if c == b',' then next else if c == 0 then none else some (token (c ∷ s))

unfoldable pub skip_blanks : Bytes → Bytes
skip_blanks [] = []
skip_blanks (c ∷ s) = let rest = skip_blanks s in if c == b' ' || c == b'\n' then rest else c ∷ s

unfoldable pub skip_spaces : Bytes → Bytes
skip_spaces [] = []
skip_spaces (c ∷ s) = let rest = skip_spaces s in if c == b' ' then rest else c ∷ s

-- What lies in memory behind the zero of a token; `none` is the end of the copy.
abbrev pub memory : Rest → Option Bytes
memory (comma s) = some s
memory (zeroed s) = some s
memory finish = none

-- What the next `strtok` goes on with.
abbrev pub to_go_on : Rest → Bytes
to_go_on (comma s) = s
to_go_on (zeroed s) = []
to_go_on finish = []

-- An item with the blanks in front of it skipped: the name, the text behind the zero that is written
-- behind it, up to the next zero, and what the next `strtok` goes on with.
pub data Item : Type 0 where
  beyond : Item
  item : Bytes → Bytes → Bytes → Item

-- The space is sought behind the zero of the token, where the next token is.
abbrev pub space_in_memory : Bytes → Rest → Item
space_in_memory name rest = elim (memory rest) [
  | none ↦ beyond
  | some s ↦ elim (split_at b' ' s) [
    | none ↦ beyond
    | some (before, after) ↦ elim rest [
      | comma s ↦ item name (c_string after) (before ++ 0 ∷ after)
      | zeroed s ↦ item name (c_string after) []
      | finish ↦ beyond
    ]
  ]
]

-- The loop that seeks the space begins behind the first character of the name, even if that is the zero.
unfoldable pub read_item : Bytes → Rest → Item
unfolding split_at c_string
read_item [] rest = space_in_memory [] rest
read_item (c ∷ field_name) rest = elim (split_at b' ' field_name) [
  | none ↦ space_in_memory (c ∷ field_name) rest
  | some (before, after) ↦ item (c ∷ before) after (to_go_on rest)
]

-- The `for` loop, from what is left of the copy; `none` is too little fuel.
unfoldable pub search_items : ℕ → Bytes → Bytes → Option Fetched
unfolding strtok skip_blanks skip_spaces read_item equal
search_items zero s curr_field_name = none
search_items (suc fuel) s curr_field_name = elim (strtok s) [
  | none ↦ some absent
  | some (tok, rest) ↦ elim (read_item (skip_blanks tok) rest) [
    | beyond ↦ some outside
    | item name type rest' ↦ elim (equal name curr_field_name) [
      | true ↦ some (fetched (skip_spaces type))
      | false ↦ search_items fuel rest' curr_field_name
    ]
  ]
]

unfoldable pub get_field_type : Bytes → Bytes → Option Fetched
unfolding split_at search_items
get_field_type statement curr_field_name = elim (split_at b'(' statement) [
  | none ↦ some absent
  | some (before, items) ↦ search_items (suc (length items)) items curr_field_name
]
