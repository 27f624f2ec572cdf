-- ===== src/Sqlite3/Select/Alias.antt =====
-- What the loop over the words of a statement makes of an alias.
use libdbi_drivers.Prelude.{
  true, false, Option, none, some, List, [], ◌∷◌, ◌++◌, ◌≡◌, refl, ap, ◌∙◌, Bytes, codes,
}
use libdbi_drivers.CString.{equal, split_at}
use libdbi_drivers.CString.Laws.{equal_refl}
use libdbi_drivers.Sqlite3.Select.{
  Scan, goes_on, column, scan, scan_start, one_token, outer_token, new_item, strip_table, is_as,
  is_from, is_select,
}

-- A word of a column list: no table name before it, no bracket, and neither `as` nor `from`.
abbrev pub IsPlain : Bytes → Type 0
IsPlain t =
    (split_at b'.' t ≡ none) × (split_at b'(' t ≡ none) × (is_as t ≡ false) × (is_from t ≡ false)

abbrev pub ArePlain : List Bytes → Type 0
ArePlain [] = Unit {0}
ArePlain (t ∷ ts) = IsPlain t × ArePlain ts

-- Words behind the last column list: no `select`, whose table name is not looked at.
abbrev pub NoSelect : List Bytes → Type 0
NoSelect [] = Unit {0}
NoSelect (t ∷ ts) = (is_select (strip_table t) ≡ false) × NoSelect ts

-- In the column list, behind the item `itemstore`.
abbrev listing : Option Bytes → Bytes → Scan
listing itemstore field = record {
  as_flag = false;
  function_flag = false;
  expression_flag = false;
  from_flag = false;
  itemstore = itemstore;
  curr_field = field;
  opens = 0;
}

abbrev from_reached : Option Bytes → Bytes → Scan
from_reached itemstore field = record {
  as_flag = false;
  function_flag = false;
  expression_flag = false;
  from_flag = true;
  itemstore = itemstore;
  curr_field = field;
  opens = 0;
}

strip_table-none : (t : Bytes) → split_at b'.' t ≡ none → strip_table t ≡ t
unfolding strip_table
strip_table-none t h = rw (h, strip_table) refl

scan-goes_on :
    (t : Bytes) (ts : List Bytes) (st st' : Scan)
    → one_token t st ≡ goes_on st'
    → scan (t ∷ ts) st ≡ scan ts st'
unfolding scan
scan-goes_on t ts st st' e = rw (e, scan) refl

new_item-plain :
    (t : Bytes) (i : Option Bytes) (field : Bytes)
    → split_at b'(' t ≡ none
    → is_from t ≡ false
    → new_item t (listing i field) ≡ listing (some t) field
unfolding new_item
new_item-plain t i field bracket no_from = rw (bracket, new_item, no_from) refl

outer_token-plain :
    (t : Bytes) (i : Option Bytes) (field : Bytes)
    → IsPlain t
    → outer_token t (listing i field) ≡ goes_on (listing (some t) field)
unfolding outer_token
outer_token-plain t i field (dot, bracket, no_as, no_from) =
    rw no_as (ap (λ (st : Scan). goes_on st) (new_item-plain t i field bracket no_from))

one_token-plain :
    (t : Bytes) (i : Option Bytes) (field : Bytes)
    → IsPlain t
    → one_token t (listing i field) ≡ goes_on (listing (some t) field)
one_token-plain t i field h =
    unfold one_token in rw (strip_table-none t h.0) (outer_token-plain t i field h)

scan-plain :
    (t : Bytes) (ts : List Bytes) (i : Option Bytes) (field : Bytes)
    → IsPlain t
    → scan (t ∷ ts) (listing i field) ≡ scan ts (listing (some t) field)
scan-plain t ts i field h = scan-goes_on t ts _ _ (one_token-plain t i field h)

scan-tail :
    (ts : List Bytes) (i : Option Bytes) (field : Bytes)
    → NoSelect ts
    → scan ts (from_reached i field) ≡ column field
unfolding scan
scan-tail [] i field h = refl
scan-tail (t ∷ ts) i field (h, hs) = rw (h, scan) (scan-tail ts i field hs)

from_token :
    (ts : List Bytes) (i : Option Bytes) (field : Bytes)
    → scan (codes "FROM" ∷ ts) (listing i field)
      ≡ scan ts (from_reached (some (codes "FROM")) field)
unfolding scan equal split_at
from_token ts i field = refl

scan-from :
    (ts : List Bytes) (i : Option Bytes) (field : Bytes)
    → NoSelect ts
    → scan (codes "FROM" ∷ ts) (listing i field) ≡ column field
scan-from ts i field h = from_token ts i field ∙ scan-tail ts (some (codes "FROM")) field h

-- Behind `as`.
abbrev aliasing : Bytes → Bytes → Scan
aliasing item field = record {
  as_flag = true;
  function_flag = false;
  expression_flag = false;
  from_flag = false;
  itemstore = some item;
  curr_field = field;
  opens = 0;
}

as_token :
    (item field : Bytes) (ts : List Bytes)
    → scan (codes "AS" ∷ ts) (listing (some item) field) ≡ scan ts (aliasing item field)
unfolding scan equal split_at
as_token item field ts = refl

alias_token :
    (item field : Bytes)
    → split_at b'.' item ≡ none
    → outer_token field (aliasing item field) ≡ goes_on (listing (some item) item)
unfolding outer_token
alias_token item field h = rw (equal_refl field, strip_table-none item h) refl

field_token :
    (item field : Bytes) (ts : List Bytes)
    → split_at b'.' item ≡ none
    → split_at b'.' field ≡ none
    → scan (field ∷ ts) (aliasing item field) ≡ scan ts (listing (some item) item)
field_token item field ts h dot =
    scan-goes_on field ts _ _
      (unfold one_token in rw (strip_table-none field dot) (alias_token item field h))

scan-as :
    (item field : Bytes) (ts : List Bytes)
    → split_at b'.' item ≡ none
    → split_at b'.' field ≡ none
    → scan (codes "AS" ∷ field ∷ ts) (listing (some item) field)
      ≡ scan ts (listing (some item) item)
scan-as item field ts h dot = as_token item field (field ∷ ts) ∙ field_token item field ts h dot

scan-items :
    (ts rest : List Bytes) (i : Option Bytes) (field : Bytes)
    → ArePlain ts
    → (j : Option Bytes) × (scan (ts ++ rest) (listing i field) ≡ scan rest (listing j field))
scan-items [] rest i field h = (i, refl)
scan-items (t ∷ ts) rest i field (h, hs) =
    let (j, e) = scan-items ts rest (some t) field hs in
    (j, scan-plain t (ts ++ rest) i field h ∙ e)

-- In a column list of plain names, the loop takes the field `field` for the column before `AS field`.
pub scan-alias :
    (before after tail : List Bytes) (item field : Bytes)
    → ArePlain before
    → IsPlain item
    → split_at b'.' field ≡ none
    → ArePlain after
    → NoSelect tail
    → scan (before ++ item ∷ codes "AS" ∷ field ∷ (after ++ codes "FROM" ∷ tail)) (scan_start field)
      ≡ column item
scan-alias before after tail item field h k dot l m =
    let (j, e) = scan-items before _ none field h in
    let (j', e') = scan-items after (codes "FROM" ∷ tail) (some item) item l in
    e ∙ scan-plain item _ j field k ∙ scan-as item field _ k.0 dot ∙ e' ∙ scan-from tail j' item m

-- A field that no item of the list is an alias for is looked up under its own name.
pub scan-unaliased :
    (before tail : List Bytes) (field : Bytes)
    → ArePlain before
    → NoSelect tail
    → scan (before ++ codes "FROM" ∷ tail) (scan_start field) ≡ column field
scan-unaliased before tail field h m =
    let (j, e) = scan-items before (codes "FROM" ∷ tail) none field h in
    e ∙ scan-from tail j field m

-- A word of a column list that may begin with a table name and a dot.
abbrev pub IsItem : Bytes → Type 0
IsItem t =
    (split_at b'(' (strip_table t) ≡ none)
    × (is_as (strip_table t) ≡ false)
    × (is_from (strip_table t) ≡ false)

abbrev pub AreItems : List Bytes → Type 0
AreItems [] = Unit {0}
AreItems (t ∷ ts) = IsItem t × AreItems ts

one_token-item :
    (t : Bytes) (i : Option Bytes) (field : Bytes)
    → IsItem t
    → one_token t (listing i field) ≡ goes_on (listing (some (strip_table t)) field)
unfolding one_token outer_token
one_token-item t i field (bracket, no_as, no_from) =
    rw no_as
      (ap (λ (st : Scan). goes_on st) (new_item-plain (strip_table t) i field bracket no_from))

-- A field of a statement without aliases is looked up under its own name.
pub scan-AreItems :
    (before tail : List Bytes) (i : Option Bytes) (field : Bytes)
    → AreItems before
    → NoSelect tail
    → scan (before ++ codes "FROM" ∷ tail) (listing i field) ≡ column field
scan-AreItems [] tail i field h m = scan-from tail i field m
scan-AreItems (t ∷ ts) tail i field (h, hs) m =
    scan-goes_on t (ts ++ codes "FROM" ∷ tail) _ _ (one_token-item t i field h)
    ∙ scan-AreItems ts tail (some (strip_table t)) field hs m
