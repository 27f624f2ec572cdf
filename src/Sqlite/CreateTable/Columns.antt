-- ===== src/Sqlite/CreateTable/Columns.antt =====
-- The search of `get_field_type` on statements put together from columns.
use mathlib.Core.List.{append-nil}
use libdbi_drivers.Prelude.{
  ℕ, zero, suc, ◌≤◌, ◌<◌, Bool, true, false, Option, some, List, [], ◌∷◌, ◌++◌, ◌≡◌, ◌≢◌, ◌⊎◌, refl,
  arith, ap, ◌∙◌, if◌then◌else◌, Bytes, length, length-append,
}
use libdbi_drivers.CString.{equal}
use libdbi_drivers.CString.Laws.{Lacks, split_at-Lacks}
use libdbi_drivers.Sqlite.CreateTable.{
  Fetched, absent, fetched, Rest, comma, finish, token, strtok, skip_blanks, skip_spaces, item,
  to_go_on, read_item, search_items, get_field_type,
}

-- The blanks in front of a column, its name and its type.
pub record Column : Type 0 where
  pub indent : Bytes
  pub name : Bytes
  pub type : Bytes

abbrev pub AreBlanks : Bytes → Type 0
AreBlanks [] = Unit {0}
AreBlanks (c ∷ s) = ((c ≡ b' ') ⊎ (c ≡ b'\n')) × AreBlanks s

abbrev pub IsStart : Bytes → Type 0
IsStart [] = ⊥
IsStart (c ∷ s) = (c ≢ b' ') × (c ≢ b'\n')

-- A text that does not begin with a space.
abbrev pub BeginsWord : Bytes → Type 0
BeginsWord [] = Unit {0}
BeginsWord (c ∷ s) = c ≢ b' '

abbrev pub IsToken : Bytes → Type 0
IsToken s = Lacks b',' s × Lacks 0 s

-- A name is not empty and has no blank at its front and no space, a type begins with no space, and
-- neither has a comma.
abbrev pub IsColumn : Column → Type 0
IsColumn c =
    AreBlanks c.indent
    × IsStart c.name
    × Lacks b' ' c.name
    × BeginsWord c.type
    × IsToken c.name
    × IsToken c.type

abbrev pub AreColumns : List Column → Type 0
AreColumns [] = Unit {0}
AreColumns (c ∷ cs) = IsColumn c × AreColumns cs

abbrev definition : Column → Bytes
definition c = c.indent ++ (c.name ++ b' ' ∷ c.type)

abbrev pub written : List Column → Bytes
written [] = []
written (c ∷ []) = definition c
written (c ∷ d ∷ cs) = definition c ++ b',' ∷ written (d ∷ cs)

-- The type of the first column of a name.
abbrev pub type_among : List Column → Bytes → Fetched
type_among [] field = absent
type_among (c ∷ cs) field = if equal c.name field then fetched c.type else type_among cs field

pub Lacks-append : (x : ℕ) (s t : Bytes) → Lacks x s → Lacks x t → Lacks x (s ++ t)
Lacks-append x [] t h k = k
Lacks-append x (c ∷ s) t (h, hs) k = (h, Lacks-append x s t hs k)

Lacks-blanks : (s : Bytes) → AreBlanks s → IsToken s
Lacks-blanks [] h = (tt, tt)
Lacks-blanks (c ∷ s) (h, hs) =
    let (k, l) = Lacks-blanks s hs in ((ground arith, k), (ground arith, l))

definition-IsToken : (c : Column) → IsColumn c → IsToken (definition c)
definition-IsToken c (blanks, start, no_space, type, (n, n'), (t, t')) =
    let (b, b') = Lacks-blanks c.indent blanks in
    (
      Lacks-append b',' c.indent _ b (Lacks-append b',' c.name _ n (ground arith, t)),
      Lacks-append 0 c.indent _ b' (Lacks-append 0 c.name _ n' (ground arith, t')),
    )

token-comma : (w s : Bytes) → IsToken w → token (w ++ b',' ∷ s) ≡ (w, comma s)
unfolding token
token-comma [] s h = refl
token-comma (c ∷ w) s ((h, hs), (k, ks)) = ground (arith, token-comma w s (hs, ks))

token-finish : (w : Bytes) → IsToken w → token w ≡ (w, finish)
unfolding token
token-finish [] h = refl
token-finish (c ∷ w) ((h, hs), (k, ks)) = ground (arith, token-finish w (hs, ks))

strtok-token : (c : ℕ) (s : Bytes) → c ≢ b',' → c ≢ 0 → strtok (c ∷ s) ≡ some (token (c ∷ s))
unfolding strtok
strtok-token c s h k = ground arith

skip_blanks-append : (b s : Bytes) → AreBlanks b → IsStart s → skip_blanks (b ++ s) ≡ s
unfolding skip_blanks
skip_blanks-append [] [] h k = absurd k
skip_blanks-append [] (c ∷ s) h k = ground arith
skip_blanks-append (c ∷ b) s (h, hs) k = ground (arith, skip_blanks-append b s hs k)

IsStart-append : (n s : Bytes) → IsStart n → IsStart (n ++ s)
IsStart-append [] s h = absurd h
IsStart-append (c ∷ n) s h = h

read_item-definition :
    (name type : Bytes) (rest : Rest)
    → IsStart name
    → Lacks b' ' name
    → read_item (name ++ b' ' ∷ type) rest ≡ item name type (to_go_on rest)
unfolding read_item
read_item-definition [] type rest h k = absurd h
read_item-definition (c ∷ name) type rest h (k, ks) =
    rw (split_at-Lacks b' ' name type ks, read_item) refl

-- The copy's characters: a column, and those behind the comma that follows it.
read_item-column :
    (c : Column) (rest : Rest)
    → IsColumn c
    → read_item (skip_blanks (definition c)) rest ≡ item c.name c.type (to_go_on rest)
read_item-column c rest (blanks, start, no_space, type, n, w) =
    rw (skip_blanks-append c.indent _ blanks (IsStart-append c.name (b' ' ∷ c.type) start))
      (read_item-definition c.name c.type rest start no_space)

skip_spaces-BeginsWord : (s : Bytes) → BeginsWord s → skip_spaces s ≡ s
unfolding skip_spaces
skip_spaces-BeginsWord [] h = refl
skip_spaces-BeginsWord (c ∷ s) h = ground arith

-- A pass of the loop on a token that is a column.
search_items-column :
    (fuel : ℕ) (s field : Bytes) (c : Column) (rest : Rest)
    → IsColumn c
    → strtok s ≡ some (definition c, rest)
    → search_items (suc fuel) s field ≡ (
        if equal c.name field
        then some (fetched c.type)
        else search_items fuel (to_go_on rest) field)
unfolding search_items
search_items-column fuel s field c rest h e =
    rw (e, search_items, read_item-column c rest h, search_items) (by_name (equal c.name field))
  where
    by_name :
        (b : Bool)
        → elim b as (λ x. Option Fetched) [
          | true ↦ some (fetched (skip_spaces c.type))
          | false ↦ search_items fuel (to_go_on rest) field
        ]
          ≡ (if b then some (fetched c.type) else search_items fuel (to_go_on rest) field)
    by_name true = ap (λ t. some (fetched t)) (skip_spaces-BeginsWord c.type h.3)
    by_name false = refl

strtok-front : (w s : Bytes) → IsToken w → w ≢ [] → strtok (w ++ s) ≡ some (token (w ++ s))
strtok-front [] s h k = absurd (k refl)
strtok-front (c ∷ w) s ((h, hs), (k, ks)) ne = strtok-token c (w ++ s) h k

definition-ne : (c : Column) → definition c ≢ []
definition-ne c e = by_parts c.indent c.name e
  where
    by_parts : (b n : Bytes) → b ++ (n ++ b' ' ∷ c.type) ≢ []
    by_parts [] [] = ground arith
    by_parts [] (x ∷ n) = ground arith
    by_parts (x ∷ b) n = ground arith

-- The last column and one with others behind it, as tokens.
strtok-last : (c : Column) → IsColumn c → strtok (definition c) ≡ some (definition c, finish)
strtok-last c h =
    let k = definition-IsToken c h in
    rw append-nil at (strtok-front (definition c) [] k (definition-ne c))
    ∙ ap (λ (t : Bytes × Rest). some t) (token-finish (definition c) k)

strtok-more :
    (c : Column) (s : Bytes)
    → IsColumn c
    → strtok (definition c ++ b',' ∷ s) ≡ some (definition c, comma s)
strtok-more c s h =
    let k = definition-IsToken c h in
    strtok-front (definition c) (b',' ∷ s) k (definition-ne c)
    ∙ ap (λ (t : Bytes × Rest). some t) (token-comma (definition c) s k)

if-some :
    {A : Type 0} (b : Bool) (x r : A) (rest : Option A)
    → rest ≡ some r
    → (if b then some x else rest) ≡ some (if b then x else r)
if-some true x r rest e = refl
if-some false x r rest e = e

search_items-written :
    (fuel : ℕ) (cs : List Column) (field : Bytes)
    → AreColumns cs
    → length cs < fuel
    → search_items fuel (written cs) field ≡ some (type_among cs field)
search_items-written zero cs field h k = absurd (omega (arith, k))
search_items-written (suc fuel) [] field h k = unfold search_items in unfold strtok in refl
search_items-written (suc fuel) (c ∷ []) field (h, hs) k =
    search_items-column fuel _ field c finish h (strtok-last c h)
    ∙ if-some (equal c.name field) _ _ _ (search_items-written fuel [] field tt (omega (arith, k)))
search_items-written (suc fuel) (c ∷ d ∷ cs) field (h, hs) k =
    search_items-column fuel _ field c (comma (written (d ∷ cs))) h (strtok-more c _ h)
    ∙ if-some (equal c.name field) _ _ _
        (search_items-written fuel (d ∷ cs) field hs (omega (arith, k)))

length-written : (cs : List Column) → length cs ≤ length (written cs)
length-written [] = ground arith
length-written (c ∷ []) =
    omega (
      arith,
      length-append c.indent (c.name ++ b' ' ∷ c.type),
      length-append c.name (b' ' ∷ c.type),
    )
length-written (c ∷ d ∷ cs) =
    omega (arith, length-append (definition c) (b',' ∷ written (d ∷ cs)), length-written (d ∷ cs))

-- In a statement whose first bracket opens a list of columns, with a comma between one and the next,
-- the type is found that stands behind the first column of the name, and a null pointer is the
-- answer if there is none. No column's name or type holds a comma.
pub get_field_type-written :
    (before : Bytes) (cs : List Column) (field : Bytes)
    → Lacks b'(' before
    → AreColumns cs
    → get_field_type (before ++ b'(' ∷ written cs) field ≡ some (type_among cs field)
unfolding get_field_type
get_field_type-written before cs field h k =
    rw (split_at-Lacks b'(' before (written cs) h, get_field_type)
      (search_items-written (suc (length (written cs))) cs field k
        (omega (arith, length-written cs)))
