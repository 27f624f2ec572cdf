-- ===== src/Sqlite/CreateTable/Terminates.antt =====
-- The loop of `get_field_type` ends.
use libdbi_drivers.Prelude.{
  ℕ, zero, suc, ◌+◌, ◌≤◌, ◌<◌, true, false, Option, none, some, [], ◌∷◌, ◌++◌, ◌≡◌, refl, arith,
  inl, inr, Bool-cases, Bytes, length, length-append,
}
use libdbi_drivers.CString.{equal, split_at, c_string}
use libdbi_drivers.Sqlite.CreateTable.{
  Fetched, outside, absent, fetched, Rest, comma, zeroed, finish, token, strtok, skip_blanks,
  skip_spaces, Item, beyond, item, to_go_on, space_in_memory, read_item, search_items,
  get_field_type,
}

abbrev AreParts : Bytes → Option (Bytes × Bytes) → Type 0
AreParts s none = Unit {0}
AreParts s (some (before, after)) = length before + suc (length after) ≡ length s

split_at-AreParts : (c : ℕ) (s : Bytes) → AreParts s (split_at c s)
unfolding split_at
split_at-AreParts c [] = tt
split_at-AreParts c (x ∷ s) = ground (arith, split_at-AreParts c s)

length-token : (s : Bytes) → length (to_go_on (token s).1) ≤ length s
unfolding token
length-token [] = ground arith
length-token (c ∷ s) = ground (arith, length-token s)

abbrev IsShorter : Bytes → Option (Bytes × Rest) → Type 0
IsShorter s none = Unit {0}
IsShorter s (some (tok, rest)) = length (to_go_on rest) < length s

strtok-IsShorter : (s : Bytes) → IsShorter s (strtok s)
unfolding strtok token
strtok-IsShorter [] = tt
strtok-IsShorter (c ∷ s) = ground (arith, strtok-IsShorter s, length-token s)

-- What the next call of `strtok` goes on with.
abbrev left_of : Item → Bytes
left_of beyond = []
left_of (item name type rest) = rest

length-space_in_memory :
    (name : Bytes) (rest : Rest)
    → length (left_of (space_in_memory name rest)) ≤ length (to_go_on rest)
length-space_in_memory name (comma s) = by_parts (split_at b' ' s) (split_at-AreParts b' ' s)
  where
    by_parts :
        (o : Option (Bytes × Bytes))
        → AreParts s o
        → length (
            left_of (elim o [
              | none ↦ beyond
              | some (before, after) ↦ item name (c_string after) (before ++ 0 ∷ after)
            ]))
          ≤ length s
    by_parts none h = ground arith
    by_parts (some (before, after)) h = omega (arith, h, length-append before (0 ∷ after))
length-space_in_memory name (zeroed s) = elim (split_at b' ' s) [
  | none ↦ ground arith
  | some p ↦ ground arith
]
length-space_in_memory name finish = ground arith

length-read_item :
    (s : Bytes) (rest : Rest) → length (left_of (read_item s rest)) ≤ length (to_go_on rest)
unfolding read_item
length-read_item [] rest = length-space_in_memory [] rest
length-read_item (c ∷ s) rest = by_parts (split_at b' ' s)
  where
    by_parts :
        (o : Option (Bytes × Bytes))
        → length (
            left_of (elim o [
              | none ↦ space_in_memory (c ∷ s) rest
              | some (before, after) ↦ item (c ∷ before) after (to_go_on rest)
            ]))
          ≤ length (to_go_on rest)
    by_parts none = length-space_in_memory (c ∷ s) rest
    by_parts (some p) = omega arith

-- The loop ends if it ends on all that is shorter.
search_items-step :
    (fuel : ℕ) (s field : Bytes)
    → length s < suc fuel
    → ((s' : Bytes) → length s' < fuel → (f : Fetched) × (search_items fuel s' field ≡ some f))
    → (f : Fetched) × (search_items (suc fuel) s field ≡ some f)
unfolding search_items
search_items-step fuel s field h again = by_token (strtok s) (strtok-IsShorter s)
  where
    by_item :
        (i : Item)
        → length (left_of i) < fuel
        → (f : Fetched) × ((elim i as (λ x. Option Fetched) [
          | beyond ↦ some outside
          | item name type rest' ↦ elim (equal name field) [
            | true ↦ some (fetched (skip_spaces type))
            | false ↦ search_items fuel rest' field
          ]
        ])
            ≡ some f)
    by_item beyond k = (outside, refl)
    by_item (item name type rest') k = elim (Bool-cases (equal name field)) [
      | inl e ↦ (fetched (skip_spaces type), rw e refl)
      | inr e ↦ let (f, g) = again rest' k in (f, rw e g)
    ]

    by_token :
        (o : Option (Bytes × Rest))
        → IsShorter s o
        → (f : Fetched) × ((elim o as (λ x. Option Fetched) [
          | none ↦ some absent
          | some (tok, rest) ↦ elim (read_item (skip_blanks tok) rest) [
            | beyond ↦ some outside
            | item name type rest' ↦ elim (equal name field) [
              | true ↦ some (fetched (skip_spaces type))
              | false ↦ search_items fuel rest' field
            ]
          ]
        ])
            ≡ some f)
    by_token none k = (absent, refl)
    by_token (some (tok, rest)) k =
        by_item (read_item (skip_blanks tok) rest)
          (omega (arith, k, h, length-read_item (skip_blanks tok) rest))

search_items-some :
    (fuel : ℕ) (s field : Bytes)
    → length s < fuel
    → (f : Fetched) × (search_items fuel s field ≡ some f)
search_items-some zero s field h = absurd (omega (arith, h))
search_items-some (suc fuel) s field h =
    search_items-step fuel s field h (λ s' k. search_items-some fuel s' field k)

-- The search of any statement for any name ends: with a type, a null pointer, or a read behind the
-- end of the copy.
pub get_field_type-some :
    (statement field : Bytes) → (f : Fetched) × (get_field_type statement field ≡ some f)
unfolding get_field_type
get_field_type-some statement field = by_parts (split_at b'(' statement)
  where
    by_parts :
        (o : Option (Bytes × Bytes))
        → (f : Fetched) × ((elim o as (λ x. Option Fetched) [
          | none ↦ some absent
          | some (before, items) ↦ search_items (suc (length items)) items field
        ])
            ≡ some f)
    by_parts none = (absent, refl)
    by_parts (some (before, items)) =
        search_items-some (suc (length items)) items field (omega arith)
