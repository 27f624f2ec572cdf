-- ===== src/Sqlite3/Wildcard/Verdicts.antt =====
-- What the verdicts of `wild_case_compare` say of the pattern and the string, and how its inner loops keep
-- that.
use libdbi_drivers.Prelude.{
  ℕ, ◌<◌, Bool, true, false, List, [], ◌∷◌, ◌≡◌, refl, ◌∙◌, inl, inr, arith, ◌==◌, Bool-cases,
  Bytes,
}
use libdbi_drivers.Sqlite3.Wildcard.{
  Verdict, found, not_here, not_any, at_end, starts_many, same_char, search_many, literal, skip_one,
  find_literal,
}
use libdbi_drivers.Sqlite3.Wildcard.Like.{
  Token, many, one, only, tokens, some_suffix, like, some_suffix_idem, some_suffix-one,
  some_suffix-only,
}

-- The verdict on a pattern at a place of the string. `not_any` speaks of every later place too.
abbrev pub Means : Verdict → List Token → Bytes → Type 0
Means found p s = like p s ≡ true
Means not_here p s = like p s ≡ false
Means not_any p s = some_suffix (like p) s ≡ false

-- The verdict on what follows a `%`.
abbrev pub Finds : Verdict → List Token → Bytes → Type 0
Finds found p s = some_suffix (like p) s ≡ true
Finds not_here p s = ⊥
Finds not_any p s = some_suffix (like p) s ≡ false

-- What a verdict returned at the end of the string may be.
abbrev pub IsRefusal : Verdict → Type 0
IsRefusal found = ⊥
IsRefusal v = Unit

pub Finds-many : (v : Verdict) (p : List Token) (s : Bytes) → Finds v p s → Means v (many ∷ p) s
unfolding like
Finds-many found p s h = h
Finds-many not_here p s h = absurd h
Finds-many not_any p s h = some_suffix_idem (like p) s ∙ h

pub Finds-many_many :
    (v : Verdict) (p : List Token) (s : Bytes) → Finds v p s → Finds v (many ∷ p) s
unfolding like
Finds-many_many found p s h = some_suffix_idem (like p) s ∙ h
Finds-many_many not_here p s h = h
Finds-many_many not_any p s h = some_suffix_idem (like p) s ∙ h

Means-only :
    (w c : ℕ) (p : List Token) (s : Bytes)
    → (w == c) ≡ true
    → (v : Verdict) → Means v p s
    → Means v (only w ∷ p) (c ∷ s)
unfolding like
Means-only w c p s e found m = ground arith
Means-only w c p s e not_here m = ground arith
Means-only w c p s e not_any m = some_suffix-only w p c s m

pub Means-literal :
    (next : Bytes → Verdict) (p : List Token)
    → ((s : Bytes) → Means (next s) p s)
    → (w : ℕ) (str : Bytes) → Means (literal next w str) (only w ∷ p) str
unfolding literal
Means-literal next p h w [] = unfold like in refl
Means-literal next p h w (c ∷ s) = elim (Bool-cases (w == c)) [
  | inl same ↦ rw (same, literal) (Means-only w c p s same (next s) (h s))
  | inr other ↦ rw (other, literal) (unfold like in ground arith)
]

pub Means-skip_one :
    (next : Bytes → Verdict) (p : List Token)
    → ((s : Bytes) → Means (next s) p s)
    → (ended : Verdict) → IsRefusal ended
    → (str : Bytes) → Means (skip_one next ended str) (one ∷ p) str
unfolding skip_one
Means-skip_one next p h found r [] = absurd r
Means-skip_one next p h not_here r [] = unfold like in refl
Means-skip_one next p h not_any r [] = unfold like in refl
Means-skip_one next p h ended r (c ∷ s) = step (next s) (h s)
  where
    step : (v : Verdict) → Means v p s → Means v (one ∷ p) (c ∷ s)
    step found m = unfold like in m
    step not_here m = unfold like in m
    step not_any m = some_suffix-one p c s ∙ m

pub Finds-skip_one :
    (next : Bytes → Verdict) (p : List Token)
    → ((s : Bytes) → Finds (next s) p s)
    → (str : Bytes) → Finds (skip_one next not_any str) (one ∷ p) str
unfolding skip_one
Finds-skip_one next p h [] = unfold like in refl
Finds-skip_one next p h (c ∷ s) = step (next s) (h s)
  where
    step : (v : Verdict) → Finds v p s → Finds v (one ∷ p) (c ∷ s)
    step found m = some_suffix-one p c s ∙ m
    step not_here m = m
    step not_any m = some_suffix-one p c s ∙ m

Finds-later :
    (p : List Token) (c : ℕ) (s : Bytes)
    → like p (c ∷ s) ≡ false
    → (v : Verdict) → Finds v p s
    → Finds v p (c ∷ s)
unfolding some_suffix
Finds-later p c s e found h = ground arith
Finds-later p c s e not_here h = h
Finds-later p c s e not_any h = ground arith

-- The flag that the loop reads says that the rest of the pattern begins with a `%`.
abbrev SaysMany : Bool → List Token → Type 0
SaysMany false p = Unit
SaysMany true (many ∷ p) = Unit
SaysMany true _ = ⊥

SaysMany-not_any :
    (p : List Token) (s : Bytes)
    → SaysMany true p
    → like p s ≡ false
    → some_suffix (like p) s ≡ false
SaysMany-not_any [] s m h = absurd m
SaysMany-not_any (many ∷ p) s m h = Finds-many_many not_any p s (unfold like in h)
SaysMany-not_any (one ∷ p) s m h = absurd m
SaysMany-not_any (only a ∷ p) s m h = absurd m

-- The verdict of the loop at a place where the character was found.
Finds-at :
    (flag : Bool) (p : List Token) (a c : ℕ) (s : Bytes) (later : Verdict)
    → SaysMany flag p
    → (a == c) ≡ true
    → Finds later (only a ∷ p) s
    → (v : Verdict) → Means v p s
    → Finds
        (elim v [
          | not_here ↦ elim flag [ true ↦ not_any | false ↦ later ]
          | found ↦ found
          | not_any ↦ not_any
        ])
        (only a ∷ p)
        (c ∷ s)
Finds-at flag p a c s later m e h found v = unfold like in ground arith
Finds-at false p a c s later m e h not_here v =
    Finds-later (only a ∷ p) c s (unfold like in ground arith) later h
Finds-at true p a c s later m e h not_here v = some_suffix-only a p c s (SaysMany-not_any p s m v)
Finds-at flag p a c s later m e h not_any v = some_suffix-only a p c s v

-- Below 128 the two kinds of character are compared as they should be.
same_char-left : (c a : ℕ) → a < 128 → same_char c a ≡ (c == a)
unfolding same_char
same_char-left c a h = ground arith

pub same_char-right : (c a : ℕ) → a < 128 → same_char c a ≡ (a == c)
unfolding same_char
same_char-right c a h = ground arith

module _ (again : Bytes → Verdict) (p : List Token) (h : (s : Bytes) → Means (again s) p s) where
  Finds-search_many :
      (flag : Bool) (a : ℕ) (str : Bytes)
      → a < 128
      → SaysMany flag p
      → Finds (search_many again flag a str) (only a ∷ p) str
  unfolding search_many
  Finds-search_many flag a [] low m = unfold like in refl
  Finds-search_many flag a (c ∷ s) low m = elim (Bool-cases (c == a)) [
    | inl same ↦
        rw (same_char-left c a low, same, search_many)
          (Finds-at flag p a c s _ m (ground arith) (Finds-search_many flag a s low m) (again s)
            (h s))
    | inr other ↦
        rw (same_char-left c a low, other, search_many)
          (Finds-later (only a ∷ p) c s (unfold like in ground arith) _
            (Finds-search_many flag a s low m))
  ]

  pub Finds-find_literal :
      (rest : Bytes) (a : ℕ) (str : Bytes)
      → a < 128
      → SaysMany (starts_many rest) p
      → Finds (find_literal again rest a str) (only a ∷ p) str
  unfolding find_literal
  Finds-find_literal rest a [] low m = unfold like in refl
  Finds-find_literal rest a (c ∷ s) low m = Finds-search_many (starts_many rest) a (c ∷ s) low m

pub tokens-SaysMany : (escape : ℕ) (rest : Bytes) → SaysMany (starts_many rest) (tokens escape rest)
unfolding tokens
tokens-SaysMany escape [] = tt
tokens-SaysMany escape (w ∷ []) = elim (Bool-cases (w == b'%')) [
  | inl e ↦ rw (e, tokens) tt
  | inr e ↦ rw (e, tokens) tt
]
tokens-SaysMany escape (w ∷ d ∷ ws) = elim (Bool-cases (w == b'%')) [
  | inl e ↦ rw (e, tokens) tt
  | inr e ↦ rw (e, tokens) tt
]

pub at_end-Means : (str : Bytes) → Means (at_end str) [] str
unfolding like
at_end-Means [] = refl
at_end-Means (c ∷ s) = refl
