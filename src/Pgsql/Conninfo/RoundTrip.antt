-- ===== src/Pgsql/Conninfo/RoundTrip.antt =====
-- The connection string as libpq reads it.
use mathlib.Core.List.{append_assoc, append-nil}
use libdbi_drivers.Prelude.{
  ℕ, zero, suc, ◌≤◌, true, false, Option, none, some, List, [], ◌∷◌, ◌++◌, ◌≡◌, refl, arith, inl,
  inr, ◌==◌, ◌||◌, if◌then◌else◌, Bool-cases, Bytes, length,
}
use libdbi_drivers.CString.{split_at}
use libdbi_drivers.CString.Laws.{Lacks, split_at-Lacks, split_at-none}
use libdbi_drivers.Sql.{prepend}
use libdbi_drivers.Pgsql.Conninfo.{assignment}

-- The value behind an opening quote, and what follows the closing one: a backslash stands before a
-- character that is taken as it is.
unfoldable pub read_quoted : Bytes → Option (Bytes × Bytes)
read_quoted [] = none
read_quoted (c ∷ []) = if c == b'\'' then some ([], []) else none
read_quoted (c ∷ d ∷ s) =
    let escaped = prepend d (read_quoted s) in
    let plain = prepend c (read_quoted (d ∷ s)) in
    if c == b'\'' then some ([], d ∷ s) else if c == b'\\' then escaped else plain

-- A keyword, which has no space, an equals sign and a quoted value.
unfoldable pub read_setting : Bytes → Option ((Bytes × Bytes) × Bytes)
unfolding split_at read_quoted
read_setting s = elim (split_at b'=' s) [
  | none ↦ none
  | some (key, []) ↦ none
  | some (key, q ∷ rest) ↦ elim (q == b'\'') [
    | false ↦ none
    | true ↦ elim (split_at b' ' key) [
      | some pair ↦ none
      | none ↦ elim (read_quoted rest) [ none ↦ none | some (v, rest') ↦ some ((key, v), rest') ]
    ]
  ]
]

-- Settings with one space between them. `none` is a string that is refused, or too little fuel.
unfoldable pub read_settings : ℕ → Bytes → Option (List (Bytes × Bytes))
unfolding read_setting
read_settings fuel [] = some []
read_settings zero (c ∷ s) = none
read_settings (suc fuel) (c ∷ s) = elim (read_setting (c ∷ s)) [
  | none ↦ none
  | some (setting, []) ↦ some (setting ∷ [])
  | some (setting, space ∷ rest) ↦ elim (space == b' ') [
    | false ↦ none
    | true ↦ elim (read_settings fuel rest) [ none ↦ none | some more ↦ some (setting ∷ more) ]
  ]
]

-- A backslash before each quote and each backslash.
abbrev pub backslashed : Bytes → Bytes
backslashed [] = []
backslashed (c ∷ s) =
    if c == b'\'' || c == b'\\' then b'\\' ∷ c ∷ backslashed s else c ∷ backslashed s

read_quoted-escaped :
    (c : ℕ) (s v rest : Bytes)
    → read_quoted s ≡ some (v, rest)
    → read_quoted (b'\\' ∷ c ∷ s) ≡ some (c ∷ v, rest)
unfolding read_quoted
read_quoted-escaped c s v rest h = rw h

read_quoted-plain :
    (c : ℕ) (s v rest : Bytes)
    → (c == b'\'') ≡ false
    → (c == b'\\') ≡ false
    → read_quoted s ≡ some (v, rest)
    → read_quoted (c ∷ s) ≡ some (c ∷ v, rest)
unfolding read_quoted
read_quoted-plain c [] v rest e f h = cc
read_quoted-plain c (d ∷ s) v rest e f h = rw e (rw f (rw h))

read_quoted-backslashed :
    (v rest : Bytes) → read_quoted (backslashed v ++ b'\'' ∷ rest) ≡ some (v, rest)
read_quoted-backslashed [] [] = unfold read_quoted in refl
read_quoted-backslashed [] (d ∷ rest) = unfold read_quoted in refl
read_quoted-backslashed (c ∷ v) rest = elim (Bool-cases (c == b'\'')) [
  | inl e ↦ rw e (read_quoted-escaped c _ v rest (read_quoted-backslashed v rest))
  | inr e ↦ rw e (elim (Bool-cases (c == b'\\')) [
    | inl f ↦ rw f (read_quoted-escaped c _ v rest (read_quoted-backslashed v rest))
    | inr f ↦ rw f (read_quoted-plain c _ v rest e f (read_quoted-backslashed v rest))
  ])
]

abbrev pub IsKeyword : Bytes → Type 0
IsKeyword key = Lacks b'=' key × Lacks b' ' key

read_setting-assignment :
    (key value rest : Bytes)
    → IsKeyword key
    → read_setting (assignment key (backslashed value) ++ rest) ≡ some ((key, value), rest)
unfolding read_setting
read_setting-assignment key value rest (no_equals, no_space) =
    rw
      (
        append_assoc key (b'=' ∷ b'\'' ∷ (backslashed value ++ b'\'' ∷ [])) rest,
        append_assoc (backslashed value) (b'\'' ∷ []) rest,
        split_at-Lacks b'=' key (b'\'' ∷ (backslashed value ++ b'\'' ∷ rest)) no_equals,
        read_setting,
        split_at-none b' ' key no_space,
        read_setting,
        read_quoted-backslashed value rest,
        read_setting,
      )
      refl

-- The settings written one behind the other.
abbrev pub joined : List (Bytes × Bytes) → Bytes
joined [] = []
joined ((key, value) ∷ []) = assignment key (backslashed value)
joined ((key, value) ∷ p ∷ ps) = assignment key (backslashed value) ++ b' ' ∷ joined (p ∷ ps)

abbrev pub AreKeywords : List (Bytes × Bytes) → Type 0
AreKeywords [] = Unit {0}
AreKeywords ((key, value) ∷ ps) = IsKeyword key × AreKeywords ps

-- A step of `read_settings`, for a text that is not empty.
read_settings-one :
    (fuel : ℕ) (s : Bytes) (setting : Bytes × Bytes)
    → read_setting s ≡ some (setting, [])
    → read_settings (suc fuel) s ≡ some (setting ∷ [])
unfolding read_settings
read_settings-one fuel [] setting e = cc
read_settings-one fuel (c ∷ s) setting e = rw (e, read_settings) refl

read_settings-more :
    (fuel : ℕ) (s rest : Bytes) (setting : Bytes × Bytes) (more : List (Bytes × Bytes))
    → read_setting s ≡ some (setting, b' ' ∷ rest)
    → read_settings fuel rest ≡ some more
    → read_settings (suc fuel) s ≡ some (setting ∷ more)
unfolding read_settings
read_settings-more fuel [] rest setting more e h = cc
read_settings-more fuel (c ∷ s) rest setting more e h = rw (e, read_settings, h, read_settings) refl

pub read_settings-joined :
    (fuel : ℕ) (ps : List (Bytes × Bytes))
    → length ps ≤ fuel
    → AreKeywords ps
    → read_settings fuel (joined ps) ≡ some ps
read_settings-joined fuel [] h k = unfold read_settings in refl
read_settings-joined zero (p ∷ ps) h k = absurd (omega (arith, h))
read_settings-joined (suc fuel) ((key, value) ∷ []) h (k, ks) =
    read_settings-one fuel _ (key, value)
      (rw append-nil at (read_setting-assignment key value [] k))
read_settings-joined (suc fuel) ((key, value) ∷ p ∷ ps) h (k, ks) =
    read_settings-more fuel _ (joined (p ∷ ps)) (key, value) (p ∷ ps)
      (read_setting-assignment key value (b' ' ∷ joined (p ∷ ps)) k)
      (read_settings-joined fuel (p ∷ ps) (omega (arith, h)) ks)
