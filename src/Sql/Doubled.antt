-- ===== src/Sql/Doubled.antt =====
-- Text with every quote doubled, and how a server reads it.
use mathlib.Core.List.{append_assoc}
use libdbi_drivers.Prelude.{
  ℕ, ◌*◌, ◌≤◌, false, some, [], ◌∷◌, ◌++◌, ◌≡◌, refl, ◌∙◌, arith, inl, inr, ◌==◌, if◌then◌else◌,
  Bool-cases, Bytes, length,
}
use libdbi_drivers.Sql.{read_content, read_literal, EndsLiteral}

abbrev pub doubled : Bytes → Bytes
doubled [] = []
doubled (c ∷ s) = if c == b'\'' then b'\'' ∷ b'\'' ∷ doubled s else c ∷ doubled s

read_content-plain :
    (c : ℕ) (t rest v : Bytes)
    → (c == b'\'') ≡ false
    → read_content t ≡ some (v, rest)
    → read_content (c ∷ t) ≡ some (c ∷ v, rest)
unfolding read_content
read_content-plain c [] rest v e h = cc
read_content-plain c (d ∷ t) rest v e h = rw e (rw h)

read_content-quoted :
    (t rest v : Bytes)
    → read_content t ≡ some (v, rest)
    → read_content (b'\'' ∷ b'\'' ∷ t) ≡ some (b'\'' ∷ v, rest)
unfolding read_content
read_content-quoted t rest v h = rw h

pub read_content-doubled :
    (s rest : Bytes) → EndsLiteral rest → read_content (doubled s ++ b'\'' ∷ rest) ≡ some (s, rest)
read_content-doubled [] [] h = unfold read_content in refl
read_content-doubled [] (c ∷ rest) h = unfold read_content in ground arith
read_content-doubled (c ∷ s) rest h = elim (Bool-cases (c == b'\'')) [
  | inl e ↦ rw e (read_content-quoted _ rest s (read_content-doubled s rest h) ∙ ground arith)
  | inr e ↦ rw e (read_content-plain c _ rest s e (read_content-doubled s rest h))
]

pub length-doubled : (s : Bytes) → length (doubled s) ≤ 2 * length s
length-doubled [] = omega arith
length-doubled (c ∷ s) = ground (arith, length-doubled s)

-- A quoted text with its quotes doubled is read back, and the reader stops behind it.
pub read_literal-doubled :
    (s rest : Bytes)
    → EndsLiteral rest
    → read_literal ((b'\'' ∷ (doubled s ++ b'\'' ∷ [])) ++ rest) ≡ some (s, rest)
unfolding read_literal
read_literal-doubled s rest h = rw append_assoc (read_content-doubled s rest h)
