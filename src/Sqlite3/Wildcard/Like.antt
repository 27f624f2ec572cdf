-- ===== src/Sqlite3/Wildcard/Like.antt =====
-- The patterns of SQL's LIKE and what they match, by backtracking over every split of the string.
use libdbi_drivers.Prelude.{
  ℕ, Bool, true, false, ◌&&◌, ◌||◌, List, [], ◌∷◌, ◌≡◌, refl, arith, ◌==◌, if◌then◌else◌, Bytes,
}

pub data Token : Type 0 where
  many one : Token
  only : ℕ → Token

-- An escape character makes the next one literal; at the end of the pattern it is itself literal.
abbrev token : ℕ → Token
token w = if w == b'%' then many else if w == b'_' then one else only w

unfoldable pub tokens : ℕ → Bytes → List Token
tokens escape [] = []
tokens escape (w ∷ []) = token w ∷ []
tokens escape (w ∷ d ∷ ws) = elim (w == b'%') [
  | true ↦ many ∷ tokens escape (d ∷ ws)
  | false ↦ elim (w == b'_') [
    | true ↦ one ∷ tokens escape (d ∷ ws)
    | false ↦ elim (w == escape) [
      | true ↦ only d ∷ tokens escape ws
      | false ↦ only w ∷ tokens escape (d ∷ ws)
    ]
  ]
]

-- Whether some suffix of the string, itself and the empty one included, passes the test.
unfoldable pub some_suffix : (Bytes → Bool) → Bytes → Bool
some_suffix f [] = f []
some_suffix f (c ∷ s) = f (c ∷ s) || some_suffix f s

unfoldable pub like : List Token → Bytes → Bool
unfolding some_suffix
like [] [] = true
like [] (c ∷ s) = false
like (many ∷ p) s = some_suffix (like p) s
like (one ∷ p) [] = false
like (one ∷ p) (c ∷ s) = like p s
like (only a ∷ p) [] = false
like (only a ∷ p) (c ∷ s) = a == c && like p s

pub some_suffix_idem :
    (f : Bytes → Bool) (s : Bytes) → some_suffix (some_suffix f) s ≡ some_suffix f s
unfolding some_suffix
some_suffix_idem f [] = refl
some_suffix_idem f (c ∷ s) = ground (arith, some_suffix_idem f s)

pub some_suffix-head : (f : Bytes → Bool) (s : Bytes) → some_suffix f s ≡ false → f s ≡ false
unfolding some_suffix
some_suffix-head f [] h = h
some_suffix-head f (c ∷ s) h = ground arith

pub some_suffix-one :
    (p : List Token) (c : ℕ) (s : Bytes)
    → some_suffix (like (one ∷ p)) (c ∷ s) ≡ some_suffix (like p) s
unfolding like
some_suffix-one p c [] = ground arith
some_suffix-one p c (d ∷ s) = ground (arith, some_suffix-one p d s)

pub some_suffix-only :
    (a : ℕ) (p : List Token) (c : ℕ) (s : Bytes)
    → some_suffix (like p) s ≡ false
    → some_suffix (like (only a ∷ p)) (c ∷ s) ≡ false
unfolding like
some_suffix-only a p c [] h = ground arith
some_suffix-only a p c (d ∷ s) h = ground (arith, some_suffix-only a p d s)

pub some_suffix-nil : (s : Bytes) → some_suffix (like []) s ≡ true
unfolding like
some_suffix-nil [] = refl
some_suffix-nil (c ∷ s) = some_suffix-nil s
