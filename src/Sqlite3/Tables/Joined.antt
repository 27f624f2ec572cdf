-- ===== src/Sqlite3/Tables/Joined.antt =====
-- What `getTables` makes of a joined table that is the last word of the statement.
use libdbi_drivers.Prelude.{
  ℕ, suc, Bool, true, false, List, [], ◌∷◌, ◌≡◌, refl, ap, arith, inl, inr, Bool-cases, Bytes,
  length, leb, ◌==◌, ◌||◌, map, codes,
}
use libdbi_drivers.CString.{equal, take_while, to_lower}
use libdbi_drivers.Sqlite3.Tables.{
  Parsed, listed, overrun, is_join, next_item, drop_while, in_word, is_one_of, endwords, nottables,
  skip_joined, add_table, actual_word, parse, max_tables,
}

-- A word, with the test that ends it.
abbrev pub IsWord : Bytes → Type 0
IsWord [] = Unit {0}
IsWord (c ∷ s) = (in_word c ≡ true) × (IsWord s)

take_while-IsWord : (w : Bytes) → IsWord w → take_while in_word w ≡ w
unfolding take_while
take_while-IsWord [] h = refl
take_while-IsWord (c ∷ w) (h, hs) =
    rw (h, take_while) (ap (λ (s : Bytes). c ∷ s) (take_while-IsWord w hs))

drop_while-IsWord : (w : Bytes) → IsWord w → drop_while in_word w ≡ []
unfolding drop_while
drop_while-IsWord [] h = refl
drop_while-IsWord (c ∷ w) (h, hs) = rw (h, drop_while) (drop_while-IsWord w hs)

add_table-last :
    (p : Bool → List Bytes → Bytes → Parsed) (tables : List Bytes) (word : Bytes)
    → add_table p true tables word [] ≡ overrun
unfolding add_table skip_joined
add_table-last p tables word = elim (Bool-cases (leb max_tables (length tables))) [
  | inl e ↦ rw (e, add_table) refl
  | inr e ↦ rw (e, add_table) refl
]

actual_word-last :
    (p : Bool → Bool → List Bytes → Bytes → Parsed) (tables : List Bytes) (word : Bytes)
    → is_one_of (map to_lower word) endwords ≡ false
    → is_one_of (map to_lower word) nottables ≡ false
    → actual_word p true false tables word [] ≡ overrun
unfolding actual_word
actual_word-last p tables word f g =
    by_kind (is_one_of (map to_lower word) endwords) (is_one_of (map to_lower word) nottables) f g
  where
    by_kind :
        (last other : Bool)
        → last ≡ false
        → other ≡ false
        → elim last [
          | true ↦ listed tables
          | false ↦ elim other [
            | true ↦
                next_item
                  (p
                    (true || is_join word)
                    (false || equal (codes "as") (map to_lower word))
                    tables)
                  tables
                  []
            | false ↦ add_table (λ join. p join false) true tables word []
          ]
        ]
          ≡ overrun
    by_kind false false e k = add_table-last (λ join. p join false) tables word
    by_kind false true e k = cc
    by_kind true other e k = cc

parse-word :
    (fuel : ℕ) (join as_flag : Bool) (tables : List Bytes) (c : ℕ) (s : Bytes)
    → in_word c ≡ true
    → (c == b'(') ≡ false
    → parse (suc fuel) join as_flag tables (c ∷ s)
      ≡ actual_word
          (parse fuel)
          join
          as_flag
          tables
          (take_while in_word (c ∷ s))
          (drop_while in_word (c ∷ s))
unfolding parse
parse-word fuel join as_flag tables c s h e = rw (not_space, parse, e, parse) refl
  where
    not_space : (c == b' ' || c == b',') ≡ false
    not_space = ground (arith, h)

-- With the flag of `join` set, a last word that is a table name (it does not start with a bracket
-- and is neither an end word nor a word like `as` or `left`) makes the loop read behind the end of
-- the statement, whatever the fuel.
pub parse-joined_last :
    (fuel c : ℕ) (word : Bytes) (tables : List Bytes)
    → IsWord (c ∷ word)
    → (c == b'(') ≡ false
    → is_one_of (map to_lower (c ∷ word)) endwords ≡ false
    → is_one_of (map to_lower (c ∷ word)) nottables ≡ false
    → parse (suc fuel) true false tables (c ∷ word) ≡ overrun
parse-joined_last fuel c word tables h e f g =
    rw
      (
        parse-word fuel true false tables c word h.0 e,
        take_while-IsWord (c ∷ word) h,
        drop_while-IsWord (c ∷ word) h,
      )
      (actual_word-last (parse fuel) tables (c ∷ word) f g)
