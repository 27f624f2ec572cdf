-- ===== src/Sqlite3/Wildcard/Correct.antt =====
-- `wild_case_compare` against LIKE.
use libdbi_drivers.Prelude.{
  ℕ, ◌<◌, true, false, List, [], ◌∷◌, ◌≡◌, refl, ◌↔◌, inl, inr, ◌==◌, Bool-cases, Bytes,
}
use libdbi_drivers.Sqlite3.Wildcard.{
  Verdict, found, not_here, not_any, compare, after_many, wild_case_compare,
}
use libdbi_drivers.Sqlite3.Wildcard.Like.{
  Token, tokens, some_suffix, like, some_suffix-head, some_suffix-nil,
}
use libdbi_drivers.Sqlite3.Wildcard.Verdicts.{
  Means, Finds, IsRefusal, Finds-many, Finds-many_many, Means-literal, Means-skip_one,
  Finds-skip_one, same_char-right, Finds-find_literal, tokens-SaysMany, at_end-Means,
}

-- Every character is one of ASCII.
abbrev pub IsAscii : Bytes → Type 0
IsAscii [] = Unit {0}
IsAscii (w ∷ ws) = (w < 128) × IsAscii ws

mutual
  unfolding compare tokens

  compare-Means :
      (escape : ℕ) (result : Verdict)
      → IsRefusal result
      → (wildstr str : Bytes) → IsAscii wildstr
      → Means (compare escape result wildstr str) (tokens escape wildstr) str
  compare-Means escape result r [] str low = at_end-Means str
  compare-Means escape result r (w ∷ []) str (lw, low) = elim (Bool-cases (w == b'%')) [
    | inl e ↦
        rw (e, compare, tokens)
          (Finds-many (after_many escape [] str) [] str (after_many-Finds escape [] str low))
    | inr e ↦
        rw (e, compare, tokens)
          (elim (Bool-cases (w == b'_')) [
            | inl f ↦
                rw (f, compare, tokens)
                  (Means-skip_one _ [] (λ t. compare-Means escape result r [] t low) result r str)
            | inr f ↦
                rw (f, compare, tokens)
                  (Means-literal _ [] (λ t. compare-Means escape not_here tt [] t low) w str)
          ])
  ]
  compare-Means escape result r (w ∷ d ∷ ws) str (lw, (ld, low)) = elim (Bool-cases (w == b'%')) [
    | inl e ↦
        rw (e, compare, tokens)
          (Finds-many _ _ str (after_many-Finds escape (d ∷ ws) str (ld, low)))
    | inr e ↦
        rw (e, compare, tokens)
          (elim (Bool-cases (w == b'_')) [
            | inl f ↦
                rw (f, compare, tokens)
                  (Means-skip_one _ _ (λ t. compare-Means escape result r (d ∷ ws) t (ld, low))
                    result r str)
            | inr f ↦
                rw (f, compare, tokens)
                  (elim (Bool-cases (w == escape)) [
                    | inl g ↦
                        rw (g, compare, tokens)
                          (Means-literal _ _ (λ t. compare-Means escape not_here tt ws t low) d str)
                    | inr g ↦
                        rw (g, compare, tokens)
                          (Means-literal _ _
                            (λ t. compare-Means escape not_here tt (d ∷ ws) t (ld, low)) w str)
                  ])
          ])
  ]

  after_many-Finds :
      (escape : ℕ) (wildstr str : Bytes)
      → IsAscii wildstr
      → Finds (after_many escape wildstr str) (tokens escape wildstr) str
  after_many-Finds escape [] str low = some_suffix-nil str
  after_many-Finds escape (w ∷ []) str (lw, low) = elim (Bool-cases (w == b'%')) [
    | inl e ↦
        rw (e, after_many, tokens)
          (Finds-many_many (after_many escape [] str) [] str (after_many-Finds escape [] str low))
    | inr e ↦
        rw (e, after_many, tokens)
          (elim (Bool-cases (w == b'_')) [
            | inl f ↦
                rw (f, after_many, tokens)
                  (Finds-skip_one _ [] (λ t. after_many-Finds escape [] t low) str)
            | inr f ↦
                rw (f, after_many, tokens)
                  (Finds-find_literal _ [] (λ t. compare-Means escape not_any tt [] t low) [] w str
                    lw tt)
          ])
  ]
  after_many-Finds escape (w ∷ d ∷ ws) str (lw, (ld, low)) = elim (Bool-cases (w == b'%')) [
    | inl e ↦
        rw (e, after_many, tokens)
          (Finds-many_many _ _ str (after_many-Finds escape (d ∷ ws) str (ld, low)))
    | inr e ↦
        rw (e, after_many, tokens)
          (elim (Bool-cases (w == b'_')) [
            | inl f ↦
                rw (f, after_many, tokens)
                  (Finds-skip_one _ _ (λ t. after_many-Finds escape (d ∷ ws) t (ld, low)) str)
            | inr f ↦
                rw (f, after_many, tokens)
                  (elim (Bool-cases (w == escape)) [
                    | inl g ↦
                        rw (same_char-right escape w lw, g, after_many, tokens)
                          (Finds-find_literal _ _ (λ t. compare-Means escape not_any tt ws t low) ws
                            d str ld (tokens-SaysMany escape ws))
                    | inr g ↦
                        rw (same_char-right escape w lw, g, after_many, tokens)
                          (Finds-find_literal _ _
                            (λ t. compare-Means escape not_any tt (d ∷ ws) t (ld, low)) (d ∷ ws) w
                            str lw (tokens-SaysMany escape (d ∷ ws)))
                  ])
          ])
  ]

-- A verdict other than 0 is a refusal.
found_of_Means :
    (v : Verdict) (p : List Token) (s : Bytes) → Means v p s → (v ≡ found) ↔ (like p s ≡ true)
found_of_Means found p s h = (λ _. h, λ _. refl)
found_of_Means not_here p s h = (λ e. cc, λ e. cc)
found_of_Means not_any p s h = let no = some_suffix-head (like p) s h in (λ e. cc, λ e. cc)

-- The function returns 0 exactly when the string matches the pattern by the rules of LIKE, and 1
-- or -1 otherwise, for every pattern
-- of ASCII characters, every string and every escape character.
pub wild_case_compare-like :
    (str wildstr : Bytes) (escape : ℕ)
    → IsAscii wildstr
    → (wild_case_compare str wildstr escape ≡ found) ↔ (like (tokens escape wildstr) str ≡ true)
unfolding wild_case_compare
wild_case_compare-like str wildstr escape low =
    found_of_Means _ _ str (compare-Means escape not_any tt wildstr str low)

-- When the function returns -1, no suffix of the string matches the pattern, which has only ASCII
-- characters.
pub wild_case_compare-not_any :
    (str wildstr : Bytes) (escape : ℕ)
    → IsAscii wildstr
    → wild_case_compare str wildstr escape ≡ not_any
    → some_suffix (like (tokens escape wildstr)) str ≡ false
unfolding wild_case_compare
wild_case_compare-not_any str wildstr escape low e =
    rw e at (compare-Means escape not_any tt wildstr str low)
