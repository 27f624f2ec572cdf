-- ===== src/Sqlite3/Tables/Shorter.antt =====
-- What the inner loops of `getTables` leave of the statement.
use libdbi_drivers.Prelude.{
  ℕ, zero, suc, ◌+◌, ◌≤◌, ◌<◌, Bool, true, false, Option, none, some, [], ◌∷◌, arith, inl, inr,
  Bool-cases, Bytes, length, ◌==◌,
}
use libdbi_drivers.CString.{strstr, starts_with}
use libdbi_drivers.Sqlite3.Tables.{
  closing, drop_while, drop, Skipping, skip_joined, skip_char, Moves, moves, at_comma, at_join,
}

-- What is found is shorter than what was searched.
abbrev pub Shorter : ℕ → Option (Bytes × Bytes) → Type 0
Shorter n none = Unit {0}
Shorter n (some (inside, after)) = length inside + length after < n

cons_inside-Shorter :
    (n c : ℕ) (o : Option (Bytes × Bytes))
    → Shorter n o
    → Shorter (suc n) (elim o [ none ↦ none | some (inside, after) ↦ some (c ∷ inside, after) ])
cons_inside-Shorter n c none h = tt
cons_inside-Shorter n c (some (inside, after)) h = omega (arith, h)

pub closing-Shorter : (opens : ℕ) (s : Bytes) → Shorter (length s) (closing opens s)
unfolding closing
closing-Shorter opens [] = tt
closing-Shorter opens (c ∷ s) = elim (Bool-cases (c == b'(')) [
  | inl e ↦ rw (e, closing) (cons_inside-Shorter (length s) c _ (closing-Shorter (suc opens) s))
  | inr e ↦
      rw (e, closing)
        (elim (Bool-cases (c == b')')) [
          | inr f ↦ rw (f, closing) (cons_inside-Shorter (length s) c _ (closing-Shorter opens s))
          | inl f ↦ rw (f, closing) (at_bracket (λ m. closing-Shorter m s) opens)
        ])
]
  where
    at_bracket :
        ((m : ℕ) → Shorter (length s) (closing m s))
        → (n : ℕ)
        → Shorter (suc (length s)) (elim n [
          | zero ↦ some ([], s)
          | suc m ↦ elim (closing m s) [
            | none ↦ none
            | some (inside, after) ↦ some (c ∷ inside, after)
          ]
        ])
    at_bracket shorter zero = omega arith
    at_bracket shorter (suc m) = cons_inside-Shorter (length s) c _ (shorter m)

abbrev pub NoLonger : ℕ → Option Bytes → Type 0
NoLonger n none = Unit {0}
NoLonger n (some s) = length s ≤ n

NoLonger-suc : (n : ℕ) (o : Option Bytes) → NoLonger n o → NoLonger (suc n) o
NoLonger-suc n none h = tt
NoLonger-suc n (some s) h = omega (arith, h)

pub strstr-NoLonger : (s needle : Bytes) → NoLonger (length s) (strstr s needle)
unfolding strstr
strstr-NoLonger [] needle = elim (Bool-cases (starts_with needle [])) [
  | inl e ↦ rw (e, strstr) (omega arith)
  | inr e ↦ rw (e, strstr) tt
]
strstr-NoLonger (c ∷ s) needle = elim (Bool-cases (starts_with needle (c ∷ s))) [
  | inl e ↦ rw (e, strstr) (omega arith)
  | inr e ↦ rw (e, strstr) (NoLonger-suc (length s) _ (strstr-NoLonger s needle))
]

pub length-drop : (n : ℕ) (s : Bytes) → length (drop n s) ≤ length s
length-drop zero s = omega arith
length-drop (suc n) [] = omega arith
length-drop (suc n) (c ∷ s) = omega (arith, length-drop n s)

pub length-drop_while : (p : ℕ → Bool) (s : Bytes) → length (drop_while p s) ≤ length s
unfolding drop_while
length-drop_while p [] = omega arith
length-drop_while p (c ∷ s) = ground (arith, length-drop_while p s)

abbrev pub Skipped : ℕ → Option (Bool × Bytes) → Type 0
Skipped n none = Unit {0}
Skipped n (some (join, rest)) = length rest ≤ n

Skipped-suc : (n : ℕ) (o : Option (Bool × Bytes)) → Skipped n o → Skipped (suc n) o
Skipped-suc n none h = tt
Skipped-suc n (some (join, rest)) h = omega (arith, h)

pub skip_joined-Skipped : (state : Skipping) (s : Bytes) → Skipped (length s) (skip_joined state s)
unfolding skip_joined
skip_joined-Skipped state [] = tt
skip_joined-Skipped state (c ∷ s) = by_move (λ next. skip_joined-Skipped next s) (skip_char state c)
  where
    by_move :
        ((next : Skipping) → Skipped (length s) (skip_joined next s))
        → (m : Moves)
        → Skipped (suc (length s)) (elim m [
          | moves next ↦ skip_joined next s
          | at_comma ↦ some (false, c ∷ s)
          | at_join ↦ some (true, c ∷ s)
        ])
    by_move skipped (moves next) = Skipped-suc (length s) _ (skipped next)
    by_move skipped at_comma = omega arith
    by_move skipped at_join = omega arith
