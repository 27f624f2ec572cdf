-- ===== src/Oracle/Encoding/Names.antt =====
-- Which of Oracle's names are taken for UTF-16.
use libdbi_drivers.Prelude.{
  Bool, true, false, ◌&&◌, not, [], ◌∷◌, ◌≡◌, ◌↔◌, refl, arith, Bytes, codes,
}
use libdbi_drivers.CString.{equal}
use libdbi_drivers.CString.Laws.{equal_iff}
use libdbi_drivers.Encoding.{Table, is_empty, has_server}
use libdbi_drivers.Oracle.Encoding.{name_in, dbd_get_encoding}
use libdbi_drivers.Oracle.Encoding.Hash.{oracle_encoding_hash}

-- No name is empty, and none is translated to UTF-16.
lacks_utf_16 : Table → Bool
unfolding equal
lacks_utf_16 [] = true
lacks_utf_16 ((d, i) ∷ table) =
    not (is_empty d) && (not (equal i (codes "UTF-16")) && lacks_utf_16 table)

name_in-has_server :
    (table : Table) (buf : Bytes)
    → lacks_utf_16 table ≡ true
    → equal (name_in table buf) (codes "UTF-16") ≡ not (has_server table buf)
unfolding name_in lacks_utf_16 has_server
name_in-has_server [] buf h = refl
name_in-has_server ((d, i) ∷ table) buf h = ground (arith, name_in-has_server table buf)

name_in-utf_16 :
    (table : Table) (buf : Bytes)
    → lacks_utf_16 table ≡ true
    → (name_in table buf ≡ codes "UTF-16") ↔ (has_server table buf ≡ false)
name_in-utf_16 table buf h = (
  λ e.
      ground (
        arith,
        name_in-has_server table buf h,
        (equal_iff (name_in table buf) (codes "UTF-16")).1 e,
      ),
  λ e.
      (equal_iff (name_in table buf) (codes "UTF-16")).0
        (ground (arith, name_in-has_server table buf h)),
)

hash_lacks_utf_16 : lacks_utf_16 oracle_encoding_hash ≡ true
unfolding lacks_utf_16 oracle_encoding_hash
hash_lacks_utf_16 = refl

-- The driver says UTF-16 of exactly those character sets that the table lacks, of whatever encoding
-- they are.
pub dbd_get_encoding-utf_16 :
    (buf : Bytes)
    → (dbd_get_encoding buf ≡ codes "UTF-16") ↔ (has_server oracle_encoding_hash buf ≡ false)
unfolding dbd_get_encoding
dbd_get_encoding-utf_16 buf = name_in-utf_16 oracle_encoding_hash buf hash_lacks_utf_16
