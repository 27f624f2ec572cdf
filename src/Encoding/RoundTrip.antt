-- ===== src/Encoding/RoundTrip.antt =====
-- Translations run over the pairs of a table, and what that says of every name in it.
use libdbi_drivers.Prelude.{
  Bool, true, false, ◌&&◌, [], ◌∷◌, ◌≡◌, refl, inl, inr, arith, Bool-cases, Bytes,
}
use libdbi_drivers.CString.{equal}
use libdbi_drivers.CString.Laws.{equal_iff}
use libdbi_drivers.Encoding.{Table, from_iana, has_iana, has_server}

-- Whether a translation leaves the IANA name of each pair, and the server's name, as it is.
unfoldable pub keeps_iana : (Bytes → Bytes) → Table → Bool
unfolding equal
keeps_iana f [] = true
keeps_iana f ((d, i) ∷ table) = equal (f i) i && keeps_iana f table

unfoldable pub keeps_server : (Bytes → Bytes) → Table → Bool
unfolding equal
keeps_server f [] = true
keeps_server f ((d, i) ∷ table) = equal (f d) d && keeps_server f table

pub keeps_iana-has_iana :
    (f : Bytes → Bytes) (table : Table) (x : Bytes)
    → keeps_iana f table ≡ true
    → has_iana table x ≡ true
    → f x ≡ x
unfolding keeps_iana has_iana
keeps_iana-has_iana f [] x k h = cc
keeps_iana-has_iana f ((d, i) ∷ table) x k h = elim (Bool-cases (equal i x)) [
  | inl e ↦ rw (← (equal_iff i x).0 e) ((equal_iff (f i) i).0 (ground arith))
  | inr e ↦ keeps_iana-has_iana f table x (ground arith) (ground arith)
]

pub keeps_server-has_server :
    (f : Bytes → Bytes) (table : Table) (x : Bytes)
    → keeps_server f table ≡ true
    → has_server table x ≡ true
    → f x ≡ x
unfolding keeps_server has_server
keeps_server-has_server f [] x k h = cc
keeps_server-has_server f ((d, i) ∷ table) x k h = elim (Bool-cases (equal d x)) [
  | inl e ↦ rw (← (equal_iff d x).0 e) ((equal_iff (f d) d).0 (ground arith))
  | inr e ↦ keeps_server-has_server f table x (ground arith) (ground arith)
]

-- A name that the table lacks is not translated.
pub from_iana-unknown :
    (table : Table) (x : Bytes) → has_iana table x ≡ false → from_iana table x ≡ x
unfolding from_iana has_iana
from_iana-unknown [] x h = refl
from_iana-unknown ((d, i) ∷ table) x h = ground (arith, from_iana-unknown table x)

-- Whether two translations agree on the IANA name of each pair.
unfoldable pub agrees_iana : (Bytes → Bytes) → (Bytes → Bytes) → Table → Bool
unfolding equal
agrees_iana f g [] = true
agrees_iana f g ((d, i) ∷ table) = equal (f i) (g i) && agrees_iana f g table

pub agrees_iana-has_iana :
    (f g : Bytes → Bytes) (table : Table) (x : Bytes)
    → agrees_iana f g table ≡ true
    → has_iana table x ≡ true
    → f x ≡ g x
unfolding agrees_iana has_iana
agrees_iana-has_iana f g [] x k h = cc
agrees_iana-has_iana f g ((d, i) ∷ table) x k h = elim (Bool-cases (equal i x)) [
  | inl e ↦ rw (← (equal_iff i x).0 e) ((equal_iff (f i) (g i)).0 (ground arith))
  | inr e ↦ agrees_iana-has_iana f g table x (ground arith) (ground arith)
]
