-- ===== src/Sqlite3/Query/Listing.antt =====
-- What SQLite reads of the names that `dbd_list_tables` inserts.
use mathlib.Core.List.{append_assoc}
use libdbi_drivers.Prelude.{ℕ, some, [], ◌∷◌, ◌++◌, ◌≡◌, ◌≢◌, refl, arith, Bytes, codes}
use libdbi_drivers.CString.Laws.{Lacks}
use libdbi_drivers.Sql.{read_content, read_literal}
use libdbi_drivers.Sqlite3.Query.{insertion}

read_content-Lacks :
    (s : Bytes) (d : ℕ) (rest : Bytes)
    → Lacks b'\'' s
    → d ≢ b'\''
    → read_content (s ++ b'\'' ∷ d ∷ rest) ≡ some (s, d ∷ rest)
unfolding read_content
read_content-Lacks [] d rest h n = ground arith
read_content-Lacks (c ∷ []) d rest (h, hs) n = ground (arith, read_content-Lacks [] d rest hs n)
read_content-Lacks (c ∷ e ∷ s) d rest (h, hs) n =
    ground (arith, read_content-Lacks (e ∷ s) d rest hs n)

abbrev pub before_name : Bytes
before_name = codes "INSERT INTO libdbi_tablenames VALUES ("

-- What stands behind the opening bracket of the statement that inserts a name is read as a literal. Of a
-- name without a quote that is the name, and the closing bracket is left. Of a name with one, in front of
-- a character that is no quote, it is what stands before the quote, and the rest of the name is left: it
-- becomes part of the statement.
pub insertion-literal :
    (before : Bytes) (d : ℕ) (after : Bytes)
    → Lacks b'\'' before
    → d ≢ b'\''
    → ((rest : Bytes) × (insertion before ≡ before_name ++ rest)
        × (read_literal rest ≡ some (before, codes ")")))
      × ((rest : Bytes) × (insertion (before ++ b'\'' ∷ d ∷ after) ≡ before_name ++ rest)
          × (read_literal rest ≡ some (before, d ∷ (after ++ codes "')"))))
unfolding read_literal
insertion-literal before d after h n = (
  (b'\'' ∷ (before ++ codes "')"), refl, read_content-Lacks before b')' [] h (ground arith)),
  (
    b'\'' ∷ ((before ++ b'\'' ∷ d ∷ after) ++ codes "')"),
    refl,
    rw append_assoc (read_content-Lacks before d (after ++ codes "')") h n),
  ),
)
