-- ===== src/Sqlite3/Databases/Matched.antt =====
-- The databases that are listed.
use libdbi_drivers.Prelude.{
  Bool, true, false, ◌&&◌, Option, none, some, List, [], ◌∷◌, ◌≡◌, ◌↔◌, refl, arith, if◌then◌else◌,
  Bytes,
}
use libdbi_drivers.CString.{equal, c_string, starts_with}
use libdbi_drivers.CString.Laws.{Lacks}
use libdbi_drivers.Sqlite3.Wildcard.{Verdict, found, not_here, not_any, wild_case_compare}
use libdbi_drivers.Sqlite3.Wildcard.Like.{like, tokens}
use libdbi_drivers.Sqlite3.Wildcard.Correct.{IsAscii, wild_case_compare-like}
use libdbi_drivers.Sqlite3.Databases.{Entry, has_magic, is_found, is_matched, listed}

has_magic-starts_with :
    (magic s : Bytes) → Lacks 0 magic → has_magic magic (some s) ≡ starts_with magic s
unfolding equal c_string starts_with
has_magic-starts_with [] s h = ground arith
has_magic-starts_with (m ∷ magic) [] h = ground arith
has_magic-starts_with (m ∷ magic) (c ∷ s) (h, hs) = ground (arith, has_magic-starts_with magic s hs)

is_found-like :
    (name pattern : Bytes)
    → IsAscii pattern
    → is_found (wild_case_compare name pattern b'\\') ≡ like (tokens b'\\' pattern) name
is_found-like name pattern low =
    by_verdict (wild_case_compare name pattern b'\\')
      (wild_case_compare-like name pattern b'\\' low)
  where
    by_verdict :
        (v : Verdict)
        → (v ≡ found) ↔ (like (tokens b'\\' pattern) name ≡ true)
        → is_found v ≡ like (tokens b'\\' pattern) name
    by_verdict found h = ground (arith, h.0 refl)
    by_verdict not_here h = ground (arith, h)
    by_verdict not_any h = ground (arith, h)

-- The database files of a directory, by what they begin with, whose names match by the rules of LIKE.
abbrev pub begins_with : Bytes → Option Bytes → Bool
begins_with magic none = false
begins_with magic (some s) = starts_with magic s

abbrev pub is_like : Option Bytes → Bytes → Bool
is_like none name = true
is_like (some pattern) name = like (tokens b'\\' pattern) name

abbrev pub IsAsciiPattern : Option Bytes → Type 0
IsAsciiPattern none = Unit {0}
IsAsciiPattern (some pattern) = IsAscii pattern

unfoldable pub matching : Bytes → Option Bytes → List Entry → List Bytes
matching magic pattern [] = []
matching magic pattern (e ∷ entries) =
    let rest = matching magic pattern entries in
    if e.is_regular && begins_with magic e.contents && is_like pattern e.d_name
    then e.d_name ∷ rest
    else rest

has_magic-begins_with :
    (magic : Bytes) (o : Option Bytes) → Lacks 0 magic → has_magic magic o ≡ begins_with magic o
has_magic-begins_with magic none h = refl
has_magic-begins_with magic (some s) h = has_magic-starts_with magic s h

is_matched-is_like :
    (pattern : Option Bytes) (name : Bytes)
    → IsAsciiPattern pattern
    → is_matched pattern name ≡ is_like pattern name
is_matched-is_like none name low = refl
is_matched-is_like (some pattern) name low = is_found-like name pattern low

listed-step :
    (magic : Bytes) (insert : Bytes → Bool) (pattern : Option Bytes) (e : Entry)
    (entries : List Entry)
    → Lacks 0 magic
    → IsAsciiPattern pattern
    → insert e.d_name ≡ true
    → listed magic insert pattern entries ≡ matching magic pattern entries
    → listed magic insert pattern (e ∷ entries) ≡ matching magic pattern (e ∷ entries)
unfolding listed matching
listed-step magic insert pattern e entries h low k ih =
    rw
      (
        listed,
        has_magic-begins_with magic e.contents h,
        is_matched-is_like pattern e.d_name low,
        k,
        ih,
      )
      refl

pub listed-matching :
    (magic : Bytes) (insert : Bytes → Bool) (pattern : Option Bytes) (entries : List Entry)
    → Lacks 0 magic
    → IsAsciiPattern pattern
    → ((name : Bytes) → insert name ≡ true)
    → listed magic insert pattern entries ≡ matching magic pattern entries
listed-matching magic insert pattern [] h low k = unfold listed in unfold matching in refl
listed-matching magic insert pattern (e ∷ entries) h low k =
    listed-step magic insert pattern e entries h low (k e.d_name)
      (listed-matching magic insert pattern entries h low k)
