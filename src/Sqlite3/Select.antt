-- ===== src/Sqlite3/Select.antt =====
-- The first half of `find_result_field_types` of drivers/sqlite3/dbd_sqlite3.c: the loop over the words of
-- the statement that finds which column, function or expression a field name is an alias of.
-- `itemstore` points into the copy of the statement, which is freed before it is read; here it is
-- the word that stood there. Names are shorter than MAX_IDENT_LENGTH.
pub mod Alias
use libdbi_drivers.Prelude.{
  ℕ, zero, suc, Bool, true, false, ◌||◌, Option, none, some, List, [], ◌∷◌, ◌++◌, ◌==◌,
  if◌then◌else◌, Bytes, codes,
}
use libdbi_drivers.CString.{equal, split_at}
use libdbi_drivers.Sqlite3.Declared.{type_of_function}
use libdbi_drivers.Sqlite3.Types.{FieldKind, string_kind}

-- The delimiters of `strtok_r`.
abbrev pub is_delimiter : ℕ → Bool
is_delimiter c = c == b' ' || c == b',' || c == b';'

abbrev pub push_word : Bytes → List Bytes → List Bytes
push_word [] words = words
push_word (c ∷ word) words = (c ∷ word) ∷ words

-- The tokens that `strtok_r(s, " ,;", &saveptr)` returns one after the other; the characters of the
-- token that has begun come first.
unfoldable pub strtok : Bytes → Bytes → List Bytes
strtok word [] = push_word word []
strtok word (c ∷ s) = elim (is_delimiter c) [
  | true ↦ push_word word (strtok [] s)
  | false ↦ strtok (word ++ c ∷ []) s
]

-- The variables of the loop. `opens` is zero outside the two inner loops, which take further tokens
-- up to the closing bracket.
pub record Scan : Type 0 where
  pub as_flag : Bool
  pub function_flag : Bool
  pub expression_flag : Bool
  pub from_flag : Bool
  pub itemstore : Option Bytes
  pub curr_field : Bytes
  pub opens : ℕ

-- What the loop ends with: a type that is returned, the name of a column to look up, or a null
-- pointer or uninitialised variable that is read.
pub data Resolved : Type 0 where
  answered : FieldKind → Resolved
  column : Bytes → Resolved
  undefined : Resolved

pub data Step : Type 0 where
  goes_on : Scan → Step
  stops : Resolved → Step

-- The count of open brackets when a `while (opens > 0 && *item != '\0')` loop ends.
unfoldable pub brackets : ℕ → Bytes → ℕ
brackets zero s = zero
brackets (suc n) [] = suc n
brackets (suc n) (c ∷ s) = elim (c == b'(') [
  | true ↦ brackets (suc (suc n)) s
  | false ↦ elim (c == b')') [ true ↦ brackets n s | false ↦ brackets (suc n) s ]
]

-- What follows the first dot, or the whole.
unfoldable pub strip_table : Bytes → Bytes
unfolding split_at
strip_table token = elim (split_at b'.' token) [ none ↦ token | some (before, after) ↦ after ]

abbrev pub is_as : Bytes → Bool
is_as token = equal token (codes "as") || equal token (codes "AS")

abbrev pub is_from : Bytes → Bool
is_from token = equal token (codes "from") || equal token (codes "FROM")

abbrev pub is_select : Bytes → Bool
is_select token =
    equal token (codes "(select")
    || equal token (codes "(SELECT")
    || equal token (codes "select")
    || equal token (codes "SELECT")

-- The test for `from` at the end of an item, whose brackets are closed.
abbrev pub closed : Bytes → Scan → Scan
closed token st = record {
  as_flag = st.as_flag;
  function_flag = st.function_flag;
  expression_flag = st.expression_flag;
  from_flag = is_from token || st.from_flag;
  itemstore = st.itemstore;
  curr_field = st.curr_field;
  opens = 0;
}

-- What remains of the brackets of an item at the end of a token: the next token, or the test.
abbrev pub bracketed : ℕ → Bytes → Scan → Scan
bracketed zero token st = closed token st
bracketed (suc n) token st = record {
  as_flag = st.as_flag;
  function_flag = st.function_flag;
  expression_flag = st.expression_flag;
  from_flag = st.from_flag;
  itemstore = st.itemstore;
  curr_field = st.curr_field;
  opens = suc n;
}

abbrev pub is_empty : Bytes → Bool
is_empty [] = true
is_empty (c ∷ s) = false

abbrev item : Bytes → Scan → Bool → Bool → Scan
item token st function expression = record {
  as_flag = false;
  function_flag = function;
  expression_flag = expression;
  from_flag = st.from_flag;
  itemstore = some token;
  curr_field = st.curr_field;
  opens = 0;
}

-- An item of the list, with the flags of an expression in brackets and of a function.
unfoldable pub new_item : Bytes → Scan → Scan
unfolding split_at brackets
new_item token st = elim (split_at b'(' token) [
  | none ↦ closed token (item token st false false)
  | some (before, after) ↦ bracketed (brackets 1 after) token (elim (is_empty before) [
    | true ↦ item token st false true
    | false ↦ item token st true false
  ])
]

abbrev set_as : Bool → Scan → Scan
set_as flag st = record {
  as_flag = flag;
  function_flag = st.function_flag;
  expression_flag = st.expression_flag;
  from_flag = st.from_flag;
  itemstore = st.itemstore;
  curr_field = st.curr_field;
  opens = 0;
}

abbrev set_from : Bool → Scan → Scan
set_from flag st = record {
  as_flag = st.as_flag;
  function_flag = st.function_flag;
  expression_flag = st.expression_flag;
  from_flag = flag;
  itemstore = st.itemstore;
  curr_field = st.curr_field;
  opens = 0;
}

-- The token behind `as` is the field: what it is an alias of.
unfoldable pub resolve_alias : Scan → Step
unfolding strip_table
resolve_alias st = elim st.itemstore [
  | none ↦ stops undefined
  | some item ↦
      if st.expression_flag
      then stops (answered string_kind)
      else if st.function_flag
      then stops (answered (type_of_function item))
      else goes_on (record {
        as_flag = false;
        function_flag = st.function_flag;
        expression_flag = st.expression_flag;
        from_flag = st.from_flag;
        itemstore = st.itemstore;
        curr_field = strip_table item;
        opens = 0;
      })
]

-- A pass of the outer loop, with the token's table name taken off.
unfoldable pub outer_token : Bytes → Scan → Step
unfolding new_item resolve_alias
outer_token token st =
    if st.from_flag
    then goes_on (if is_select token then set_from false st else st)
    else if st.as_flag
    then (if equal token st.curr_field then resolve_alias st else goes_on (set_as false st))
    else if is_as token
    then goes_on (set_as true st)
    else goes_on (new_item token st)

-- One token: a pass of the outer loop, or of the loop that looks for the closing bracket.
unfoldable pub one_token : Bytes → Scan → Step
unfolding outer_token strip_table brackets
one_token token st = elim st.opens [
  | zero ↦ outer_token (strip_table token) st
  | suc n ↦ goes_on (bracketed (brackets (suc n) token) token st)
]

-- `strtok_r` returns a null pointer behind the last token: the outer loop ends, an inner one reads
-- through it.
unfoldable pub scan : List Bytes → Scan → Resolved
unfolding one_token
scan [] st = elim st.opens [ zero ↦ column st.curr_field | suc n ↦ undefined ]
scan (token ∷ tokens) st = elim (one_token token st) [ goes_on st' ↦ scan tokens st' | stops r ↦ r ]

abbrev pub scan_start : Bytes → Scan
scan_start field = record {
  as_flag = false;
  function_flag = false;
  expression_flag = false;
  from_flag = false;
  itemstore = none;
  curr_field = field;
  opens = 0;
}

-- The loop on a whole statement.
unfoldable pub resolve : Bytes → Bytes → Resolved
unfolding scan strtok
resolve curr_field statement = scan (strtok [] statement) (scan_start curr_field)
