-- ===== src/Sql.antt =====
-- How an SQL server reads a character literal: a quote inside it is written twice. It is the
-- meaning against which the drivers' quoting is judged.
pub mod Doubled
pub mod Binary
use libdbi_drivers.Prelude.{
  ℕ, Bool, true, false, Option, none, some, [], ◌∷◌, ◌++◌, ◌≡◌, ◌≢◌, ◌==◌, if◌then◌else◌, Bytes,
  length,
}

-- One more character in front of what was read.
abbrev pub prepend : ℕ → Option (Bytes × Bytes) → Option (Bytes × Bytes)
prepend c none = none
prepend c (some (v, rest)) = some (c ∷ v, rest)

-- The value of the literal and what follows it, from behind the opening quote.
unfoldable pub read_content : Bytes → Option (Bytes × Bytes)
read_content [] = none
read_content (c ∷ []) = if c == b'\'' then some ([], []) else none
read_content (c ∷ d ∷ s) =
    let quoted = prepend c (read_content s) in
    let plain = prepend c (read_content (d ∷ s)) in
    if c == b'\'' then (if d == b'\'' then quoted else some ([], d ∷ s)) else plain

unfoldable pub read_literal : Bytes → Option (Bytes × Bytes)
unfolding read_content
read_literal [] = none
read_literal (c ∷ s) = if c == b'\'' then read_content s else none

-- What may follow a literal: anything but a quote.
abbrev pub EndsLiteral : Bytes → Type 0
EndsLiteral [] = Unit {0}
EndsLiteral (c ∷ s) = c ≢ b'\''

-- What a driver leaves in the destination, up to the terminating zero, and what it returns.
pub record Quoted : Type 0 where
  pub dest : Bytes
  pub returned : ℕ

-- The contract of `dbd_quote_string`, on the strings that satisfy `P`: a server reads back the
-- original and stops behind the literal, and the returned number is the length of the literal.
pub record IsQuoting (P : Bytes → Type 0) (quote : Bytes → Quoted) : Type 0 where
  pub reads_back :
      (orig rest : Bytes)
      → P orig
      → EndsLiteral rest
      → read_literal ((quote orig).dest ++ rest) ≡ some (orig, rest)
  pub counts : (orig : Bytes) → P orig → (quote orig).returned ≡ length (quote orig).dest
