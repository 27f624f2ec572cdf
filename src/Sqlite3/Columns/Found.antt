-- ===== src/Sqlite3/Columns/Found.antt =====
-- `get_field_type` on the result of the pragma table_info.
use mathlib.Core.List.{append_assoc}
use libdbi_drivers.Prelude.{
  ℕ, suc, ◌+◌, true, false, Option, none, some, List, [], ◌∷◌, ◌++◌, ◌≡◌, refl, ap, arith, inl, inr,
  Bool-cases, Bytes, length, length-append, get_elem?,
}
use libdbi_drivers.CString.{equal}
use libdbi_drivers.Sqlite3.Columns.{Table, type_in_rows, get_field_type}

-- A row of table_info: the number, the name, the declared type, and three more columns.
pub record Column : Type 0 where
  pub number : Option Bytes
  pub name : Bytes
  pub type : Bytes
  pub not_null : Option Bytes
  pub default_value : Option Bytes
  pub key : Option Bytes

abbrev pub flat : List Column → Table
flat [] = []
flat (c ∷ cs) =
    c.number ∷ some c.name ∷ some c.type ∷ c.not_null ∷ c.default_value ∷ c.key ∷ flat cs

-- The type of the last column of a name.
unfoldable pub declared : List Column → Bytes → Option Bytes → Option Bytes
declared [] field found = found
declared (c ∷ cs) field found = elim (equal c.name field) [
  | true ↦ declared cs field (some c.type)
  | false ↦ declared cs field found
]

get_elem?-append : (xs ys : Table) (k : ℕ) → get_elem? (xs ++ ys) (length xs + k) ≡ get_elem? ys k
get_elem?-append [] ys k = ap (get_elem? ys) (omega arith)
get_elem?-append (x ∷ xs) ys k = rw (suc_add (length xs) k) (get_elem?-append xs ys k)
  where
    suc_add : (n k : ℕ) → suc n + k ≡ suc (n + k)
    suc_add n k = omega arith

abbrev row : Column → Table
row c = flat (c ∷ [])

type_in_rows-step :
    (table : Table) (field name type : Bytes) (i left : ℕ) (found : Option Bytes)
    → get_elem? table (i + 1) ≡ some (some name)
    → get_elem? table (i + 2) ≡ some (some type)
    → type_in_rows table field i (suc left) found ≡ elim (equal name field) [
      | true ↦ type_in_rows table field (i + 6) left (some type)
      | false ↦ type_in_rows table field (i + 6) left found
    ]
unfolding type_in_rows
type_in_rows-step table field name type i left found g h =
    rw (g, type_in_rows)
      (elim (Bool-cases (equal name field)) [
        | inl e ↦ rw (e, type_in_rows, h, type_in_rows) refl
        | inr e ↦ rw (e, type_in_rows) refl
      ])

-- The rest of the rows, seen from the row before them and from their start.
type_in_rows-shift :
    (before : Table) (c : Column) (cs : List Column) (field : Bytes) (f r : Option Bytes)
    → type_in_rows ((before ++ row c) ++ flat cs) field (length (before ++ row c)) (length cs) f
      ≡ some r
    → type_in_rows (before ++ flat (c ∷ cs)) field (length before + 6) (length cs) f ≡ some r
type_in_rows-shift before c cs field f r h =
    rw (append_assoc before (row c) (flat cs), length-append before (row c)) at h

type_in_rows-flat :
    (before : Table) (columns : List Column) (field : Bytes) (found : Option Bytes)
    → type_in_rows (before ++ flat columns) field (length before) (length columns) found
      ≡ some (declared columns field found)
unfolding declared
type_in_rows-flat before [] field found = unfold type_in_rows in refl
type_in_rows-flat before (c ∷ cs) field found =
    rw
      (type_in_rows-step (before ++ flat (c ∷ cs)) field c.name c.type (length before) (length cs)
        found (get_elem?-append before (flat (c ∷ cs)) 1)
        (get_elem?-append before (flat (c ∷ cs)) 2))
      (elim (Bool-cases (equal c.name field)) [
        | inl e ↦
            rw (e, declared)
              (type_in_rows-shift before c cs field (some c.type) _
                (type_in_rows-flat (before ++ row c) cs field (some c.type)))
        | inr e ↦
            rw (e, declared)
              (type_in_rows-shift before c cs field found _
                (type_in_rows-flat (before ++ row c) cs field found))
      ])

-- The array has a row of names and one row for each column. The function returns the declared type of
-- the column of the given name (the last, if there were several) and null if there is none, and
-- reads no other memory.
pub get_field_type_lem :
    (header : Table) (columns : List Column) (field : Bytes)
    → length header ≡ 6
    → get_field_type (header ++ flat columns) field (length columns)
      ≡ some (declared columns field none)
unfolding get_field_type
get_field_type_lem header columns field h = rw h at (type_in_rows-flat header columns field none)
