-- ===== src/Sqlite/Columns/Found.antt =====
-- The type of a column of a table that was created with a list of columns.
use libdbi_drivers.Prelude.{
  ℕ, Bool, true, false, ◌||◌, ◌&&◌, not, Option, none, some, List, [], ◌∷◌, ◌++◌, map, ◌≡◌, refl,
  ap, arith, ◌==◌, Bool-cases, inl, inr, Bytes,
}
use libdbi_drivers.CString.{equal, starts_with, strstr, contains, to_upper}
use libdbi_drivers.CString.Laws.{Lacks, split_at-Lacks, split_at-none}
use libdbi_drivers.Sqlite.CreateTable.Columns.{
  BeginsWord, Lacks-append, Column, AreColumns, written, type_among, get_field_type-written,
}
use libdbi_drivers.Sqlite.Declared.{sqlite_type_of_upper, sqlite_type_of_declaration, type_of_call}
use libdbi_drivers.Sqlite.Columns.{
  kind_of_fetched, fits, find_from, table_in_front, first_table, is_internal, create_statement,
  type_in_statement, type_of_column, type_of_unqualified, find_result_field_types,
}

-- A character at the end does not matter to the search for what lacks it.
module _ (c : ℕ) where
  starts_with-end : (p s : Bytes) → Lacks c p → starts_with p (s ++ c ∷ []) ≡ starts_with p s
  unfolding starts_with
  starts_with-end [] s h = refl
  starts_with-end (a ∷ p) [] (h, hs) = ground arith
  starts_with-end (a ∷ p) (x ∷ s) (h, hs) = ap (λ b. a == x && b) (starts_with-end p s hs)

  contains-cons :
      (x : ℕ) (s p : Bytes) → contains (x ∷ s) p ≡ (starts_with p (x ∷ s) || contains s p)
  unfolding contains strstr
  contains-cons x s p = ground arith

  contains-nil : (p : Bytes) → contains [] p ≡ starts_with p []
  unfolding contains strstr
  contains-nil p = ground arith

  contains-end : (p s : Bytes) → Lacks c p → contains (s ++ c ∷ []) p ≡ contains s p
  contains-end p [] h =
      let e : starts_with p (c ∷ []) ≡ starts_with p [] = starts_with-end p [] h in
      rw (contains-cons c [] p, contains-nil p, e) (ground arith)
  contains-end p (x ∷ s) h =
      let e : starts_with p (x ∷ (s ++ c ∷ [])) ≡ starts_with p (x ∷ s) =
        starts_with-end p (x ∷ s) h in
      rw (contains-cons x (s ++ c ∷ []) p, contains-cons x s p, contains-end p s h, e) refl

abbrev lacks : ℕ → Bytes → Bool
lacks c [] = true
lacks c (x ∷ s) = not (x == c) && lacks c s

lacks-Lacks : (c : ℕ) (s : Bytes) → lacks c s ≡ true → Lacks c s
lacks-Lacks c [] h = tt
lacks-Lacks c (x ∷ s) h = (ground arith, lacks-Lacks c s (ground arith))

contains-close : (s p : Bytes) → lacks b')' p ≡ true → contains (s ++ b')' ∷ []) p ≡ contains s p
contains-close s p h = contains-end b')' p s (lacks-Lacks b')' p h)

map-append : (f : ℕ → ℕ) (s t : Bytes) → map f (s ++ t) ≡ map f s ++ map f t
map-append f [] t = refl
map-append f (c ∷ s) t = ap (λ (r : Bytes). f c ∷ r) (map-append f s t)

sqlite_type_of_upper-close :
    (s : Bytes) → sqlite_type_of_upper (s ++ b')' ∷ []) ≡ sqlite_type_of_upper s
unfolding sqlite_type_of_upper
sqlite_type_of_upper-close s = simp contains-close

sqlite_type_of_declaration-close :
    (s : Bytes) → sqlite_type_of_declaration (s ++ b')' ∷ []) ≡ sqlite_type_of_declaration s
unfolding sqlite_type_of_declaration to_upper
sqlite_type_of_declaration-close s =
    rw (map-append to_upper s (b')' ∷ [])) (sqlite_type_of_upper-close (map to_upper s))

-- The columns with the bracket that closes the statement behind the last.
abbrev pub closed : List Column → List Column
closed [] = []
closed (c ∷ []) = record c { type = c.type ++ b')' ∷ [] } ∷ []
closed (c ∷ d ∷ cs) = c ∷ closed (d ∷ cs)

BeginsWord-close : (s : Bytes) → BeginsWord s → BeginsWord (s ++ b')' ∷ [])
BeginsWord-close [] h = ground arith
BeginsWord-close (c ∷ s) h = h

closed-AreColumns : (cs : List Column) → AreColumns cs → AreColumns (closed cs)
closed-AreColumns [] h = tt
closed-AreColumns (c ∷ []) ((blanks, start, space, begins, name, (comma, zero)), hs) = (
  (
    blanks,
    start,
    space,
    BeginsWord-close c.type begins,
    name,
    (
      Lacks-append b',' c.type (b')' ∷ []) comma (ground arith),
      Lacks-append 0 c.type (b')' ∷ []) zero (ground arith),
    ),
  ),
  tt,
)
closed-AreColumns (c ∷ d ∷ cs) (h, hs) = (h, closed-AreColumns (d ∷ cs) hs)

kind-closed :
    (cs : List Column) (name : Bytes)
    → kind_of_fetched (type_among (closed cs) name) ≡ kind_of_fetched (type_among cs name)
kind-closed [] name = refl
kind-closed (c ∷ []) name = elim (Bool-cases (equal c.name name)) [
  | inl e ↦ rw (e, sqlite_type_of_declaration-close c.type) refl
  | inr e ↦ rw e refl
]
kind-closed (c ∷ d ∷ cs) name = elim (Bool-cases (equal c.name name)) [
  | inl e ↦ rw e refl
  | inr e ↦ rw e (kind-closed (d ∷ cs) name)
]

module _ (master temp_master : Bytes → Option Bytes) where
  type_in_statement-written :
      (before : Bytes) (cs : List Column) (name : Bytes)
      → Lacks b'(' before
      → AreColumns cs
      → type_in_statement master temp_master (some (before ++ b'(' ∷ written (closed cs))) name
        ≡ kind_of_fetched (type_among cs name)
  type_in_statement-written before cs name h k =
      rw
        (
          type_in_statement,
          get_field_type-written before (closed cs) name h (closed-AreColumns cs k),
        )
        (kind-closed cs name)

  type_of_column-written :
      (before : Bytes) (cs : List Column) (table name : Bytes)
      → (fits table && fits name) ≡ true
      → type_of_call (map to_upper name) ≡ none
      → create_statement master temp_master table ≡ some (before ++ b'(' ∷ written (closed cs))
      → Lacks b'(' before
      → AreColumns cs
      → type_of_column master temp_master table name ≡ kind_of_fetched (type_among cs name)
  unfolding type_of_column
  type_of_column-written before cs table name fit call found h k =
      rw (fit, type_of_column, call, type_of_column, found)
        (type_in_statement-written before cs name h k)

  -- A result column that is called by its table and its name has the kind of the type that the table
  -- was created with for the first column of that name, and kind 0 if the table has no such column.
  -- The names are shorter than their buffers and the column's is not taken for a function call;
  -- the statement that one of the two internal tables holds for the table has the columns in its
  -- first bracket with commas between them, and none in a name or a type.
  pub find_result_field_types-written :
      (before : Bytes) (cs : List Column) (table name statement : Bytes)
      → Lacks b'.' table
      → (fits table && fits name) ≡ true
      → type_of_call (map to_upper name) ≡ none
      → create_statement master temp_master table ≡ some (before ++ b'(' ∷ written (closed cs))
      → Lacks b'(' before
      → AreColumns cs
      → find_result_field_types master temp_master (table ++ b'.' ∷ name) statement
        ≡ kind_of_fetched (type_among cs name)
  unfolding find_result_field_types
  find_result_field_types-written before cs table name statement dot fit call found h k =
      rw (split_at-Lacks b'.' table name dot, find_result_field_types)
        (type_of_column-written before cs table name fit call found h k)

  -- A result column without a table's name is looked up as if it had the name of the first table behind
  -- " from " or " FROM ", where no dot stands before the place where the name is first found in front
  -- of that word. The table is not an internal one and has no dot in its name, nor has the column.
  pub find_result_field_types-unqualified :
      (name statement before behind : Bytes)
      → Lacks b'.' name
      → Lacks b'.' (first_table behind)
      → find_from statement ≡ some (before, behind)
      → table_in_front before name ≡ none
      → is_internal (first_table behind) ≡ false
      → find_result_field_types master temp_master name statement
        ≡ find_result_field_types master temp_master (first_table behind ++ b'.' ∷ name) statement
  unfolding find_result_field_types type_of_unqualified
  find_result_field_types-unqualified name statement before behind no_dot no_dot' from front user =
      rw
        (
          split_at-Lacks b'.' (first_table behind) name no_dot',
          split_at-none b'.' name no_dot,
          find_result_field_types,
          from,
          type_of_unqualified,
          front,
          type_of_unqualified,
          user,
        )
        refl
