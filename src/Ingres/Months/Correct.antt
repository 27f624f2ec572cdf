-- ===== src/Ingres/Months/Correct.antt =====
-- The perfect hash against the list of months.gperf.
use libdbi_drivers.Prelude.{
  ℕ, ◌+◌, ◌/◌, ◌%◌, ◌≤◌, true, false, ◌&&◌, Option, none, some, List, [], ◌∷◌, ◌++◌, map, ◌≡◌, ◌≢◌,
  refl, ◌∙◌, arith, inl, inr, Bool-cases, Option-cases, ◌==◌, leb, if◌then◌else◌, Bytes, codes,
}
use libdbi_drivers.CString.{equal, to_lower}
use libdbi_drivers.CString.Laws.{Lacks, equal_iff}
use libdbi_drivers.Ingres.Months.{
  same_letters, asso_value, asso_values, hash, wordlist, matched, in_word_set,
}

-- The keywords of months.gperf.
abbrev pub months : List (Bytes × ℕ)
months =
    (codes "jan", 0)
    ∷ (codes "feb", 1)
    ∷ (codes "mar", 2)
    ∷ (codes "apr", 3)
    ∷ (codes "may", 4)
    ∷ (codes "jun", 5)
    ∷ (codes "jul", 6)
    ∷ (codes "aug", 7)
    ∷ (codes "sep", 8)
    ∷ (codes "oct", 9)
    ∷ (codes "nov", 10)
    ∷ (codes "dec", 11)
    ∷ []

unfoldable pub index_among : List (Bytes × ℕ) → Bytes → Option ℕ
unfolding equal
index_among [] name = none
index_among ((word, index) ∷ words) name =
    if equal word name then some index else index_among words name

-- The month that a word names, in capitals or small letters.
unfoldable pub month_index : Bytes → Option ℕ
unfolding index_among to_lower
month_index name = index_among months (map to_lower name)

same_letters-equal :
    (name rest s : Bytes)
    → Lacks 0 name
    → Lacks 0 s
    → same_letters (name ++ 0 ∷ rest) s ≡ equal (map to_lower s) (map to_lower name)
unfolding same_letters to_lower equal
same_letters-equal [] rest [] h k = ground arith
same_letters-equal [] rest (d ∷ s) h (k, ks) = ground arith
same_letters-equal (c ∷ name) rest [] (h, hs) k = ground arith
same_letters-equal (c ∷ name) rest (d ∷ s) (h, hs) (k, ks) =
    ground (arith, same_letters-equal name rest s hs ks)

-- A keyword stands in the word list under its hash.
abbrev IsKeyed : Bytes → ℕ → Type 0
IsKeyed (x ∷ y ∷ z ∷ []) i =
    (wordlist (3 + asso_value z + asso_value y) ≡ (x ∷ y ∷ z ∷ [], i))
    × (leb (3 + asso_value z + asso_value y) 33 ≡ true)
    × (b'a' ≤ x)
    × (x ≤ b'z')
    × (equal (map to_lower (x ∷ y ∷ z ∷ [])) (x ∷ y ∷ z ∷ []) ≡ true)
    × Lacks 0 (x ∷ y ∷ z ∷ [])
IsKeyed word i = ⊥

abbrev AreKeyed : List (Bytes × ℕ) → Type 0
AreKeyed [] = Unit {0}
AreKeyed ((word, i) ∷ words) = IsKeyed word i × AreKeyed words

months-AreKeyed : AreKeyed months
unfolding wordlist to_lower equal
months-AreKeyed = ground arith

index_among-IsKeyed :
    (words : List (Bytes × ℕ)) (word : Bytes) (i : ℕ)
    → AreKeyed words
    → index_among words word ≡ some i
    → IsKeyed word i
unfolding index_among
index_among-IsKeyed [] word i h e = ground arith
index_among-IsKeyed ((w, j) ∷ words) word i (h, hs) e = elim (Bool-cases (equal w word)) [
  | inl f ↦
      let same : w ≡ word = (equal_iff w word).0 f in
      let index : j ≡ i = ground arith in rw (← same, ← index) h
  | inr f ↦ index_among-IsKeyed words word i hs (rw (index_among, f) at e)
]

month_index-IsKeyed :
    (name : Bytes) (i : ℕ) → month_index name ≡ some i → IsKeyed (map to_lower name) i
unfolding month_index
month_index-IsKeyed name i e = index_among-IsKeyed months (map to_lower name) i months-AreKeyed e

-- An entry of the word list has an empty name, or is a keyword in small letters.
abbrev IsEntry : Bytes × ℕ → Type 0
IsEntry ([], i) = i ≡ 0
IsEntry (c ∷ word, i) =
    (index_among months (c ∷ word) ≡ some i)
    × (equal (map to_lower (c ∷ word)) (c ∷ word) ≡ true)
    × Lacks 0 (c ∷ word)

wordlist-IsEntry : (key : ℕ) → IsEntry (wordlist key)
unfolding wordlist index_among to_lower
wordlist-IsEntry key = ground arith

same_case :
    (a x : ℕ) → b'a' ≤ x → x ≤ b'z' → to_lower a ≡ x → (a % 32 == x % 32 && a / 64 == x / 64) ≡ true
unfolding to_lower
same_case a x h k e = ground arith

-- A keyword in any letters is found.
in_word_set-keyed :
    (name rest : Bytes) (r i : ℕ)
    → Lacks 0 name
    → IsKeyed (map to_lower name) i
    → in_word_set (name ++ 0 ∷ r ∷ rest) 3 ≡ some (some i)
unfolding in_word_set hash
in_word_set-keyed (a ∷ b ∷ c ∷ []) rest r i h (entry, small, low, high, same, lacks) =
    rw
      (
        small,
        entry,
        same_case a (to_lower a) low high refl,
        same_letters-equal (a ∷ b ∷ c ∷ []) (r ∷ rest) (to_lower a ∷ to_lower b ∷ to_lower c ∷ []) h
            lacks,
        same,
      )
      refl
in_word_set-keyed _ rest r i h k = absurd k

-- The entries without a name match no word.
unnamed : (a : ℕ) (s : Bytes) (i : ℕ) → a ≢ 0 → matched (a ∷ s) ([], i) ≡ none
unfolding same_letters to_lower
unnamed a s i h = ground arith

-- A keyword whose letters a word has is its month.
month_index-same :
    (name word : Bytes) (i : ℕ)
    → equal (map to_lower word) (map to_lower name) ≡ true
    → equal (map to_lower word) word ≡ true
    → index_among months word ≡ some i
    → month_index name ≡ some i
unfolding month_index
month_index-same name word i e f g =
    let p : map to_lower word ≡ map to_lower name =
      (equal_iff (map to_lower word) (map to_lower name)).0 e in
    let q : map to_lower word ≡ word = (equal_iff (map to_lower word) word).0 f in rw (← p, q) g

-- An entry that matches is a keyword.
matched-none :
    (name rest : Bytes) (entry : Bytes × ℕ)
    → Lacks 0 name
    → name ≢ []
    → IsEntry entry
    → month_index name ≡ none
    → matched (name ++ 0 ∷ rest) entry ≡ none
matched-none [] rest entry h ne k e = absurd (ne refl)
matched-none (a ∷ name) rest ([], i) (h, hs) ne k e = unnamed a (name ++ 0 ∷ rest) i h
matched-none (a ∷ name) rest (d ∷ word, i) h ne (listed, small, lacks) e =
    elim (Bool-cases (equal (map to_lower (d ∷ word)) (map to_lower (a ∷ name)))) [
      | inl f ↦
          let found : month_index (a ∷ name) ≡ some i =
            month_index-same (a ∷ name) (d ∷ word) i f small listed in
          absurd (ground arith)
      | inr f ↦
          let g : same_letters (a ∷ (name ++ 0 ∷ rest)) (d ∷ word) ≡ false =
            same_letters-equal (a ∷ name) rest (d ∷ word) h lacks ∙ f in
          ground arith
    ]

-- Two characters behind the first are read, whatever the word is.
abbrev Reads : Bytes → Type 0
Reads [] = ⊥
Reads (a ∷ []) = ⊥
Reads (a ∷ b ∷ []) = ⊥
Reads (a ∷ b ∷ c ∷ s) = Unit {0}

in_word_set-none :
    (str : Bytes)
    → Reads str
    → ((key : ℕ) → matched str (wordlist key) ≡ none)
    → in_word_set str 3 ≡ some none
unfolding in_word_set hash
in_word_set-none (a ∷ b ∷ c ∷ s) h k = rw (k (3 + asso_values c + asso_values b)) (ground arith)
in_word_set-none _ h k = absurd h

Reads-append : (name rest : Bytes) (r : ℕ) → name ≢ [] → Reads (name ++ 0 ∷ r ∷ rest)
Reads-append [] rest r ne = absurd (ne refl)
Reads-append (a ∷ []) rest r ne = tt
Reads-append (a ∷ b ∷ []) rest r ne = tt
Reads-append (a ∷ b ∷ c ∷ s) rest r ne = tt

-- The perfect hash finds the three letters of a month's English name, in capitals or small letters, with
-- the month's number from 0 on, and nothing else: for a word that is not empty and is followed by its
-- zero and another character, it gives what a search of the list of months.gperf gives.
pub in_word_set-month_index :
    (name rest : Bytes) (r : ℕ)
    → Lacks 0 name
    → name ≢ []
    → in_word_set (name ++ 0 ∷ r ∷ rest) 3 ≡ some (month_index name)
in_word_set-month_index name rest r h ne = elim (Option-cases (month_index name)) [
  | inl e ↦ rw e (
      in_word_set-none (name ++ 0 ∷ r ∷ rest) (Reads-append name rest r ne)
        (λ key. matched-none name (r ∷ rest) (wordlist key) h ne (wordlist-IsEntry key) e))
  | inr (i, e) ↦ rw e (in_word_set-keyed name rest r i h (month_index-IsKeyed name i e))
]
