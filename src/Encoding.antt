-- ===== src/Encoding.antt =====
-- The translation of encoding names that pgsql, mysql, firebird and freetds have in common: two
-- loops over a table of pairs that an empty name ends.
pub mod RoundTrip
use libdbi_drivers.Prelude.{Bool, true, false, ◌||◌, List, [], ◌∷◌, if◌then◌else◌, Bytes}
use libdbi_drivers.CString.{equal}

-- The pairs of a table in their order: the server's name, the IANA name.
abbrev pub Table : Type 0
Table = List (Bytes × Bytes)

abbrev pub is_empty : Bytes → Bool
is_empty [] = true
is_empty (c ∷ s) = false

-- The loop of `dbd_encoding_to_iana`: `matches name db_encoding` is the comparison, with `strcmp` or
-- with `strncmp`, and the loop ends at the first empty server name.
unfoldable pub to_iana : (Bytes → Bytes → Bool) → Table → Bytes → Bytes
to_iana matches [] db_encoding = db_encoding
to_iana matches ((d, i) ∷ table) db_encoding =
    let rest = to_iana matches table db_encoding in
    if is_empty d then db_encoding else if matches d db_encoding then i else rest

-- The loop of `dbd_encoding_from_iana`, which ends at the first empty IANA name.
unfoldable pub from_iana : Table → Bytes → Bytes
unfolding equal
from_iana [] iana_encoding = iana_encoding
from_iana ((d, i) ∷ table) iana_encoding =
    let rest = from_iana table iana_encoding in
    if is_empty i then iana_encoding else if equal i iana_encoding then d else rest

-- Whether the table has an IANA name, and a server's name.
unfoldable pub has_iana : Table → Bytes → Bool
unfolding equal
has_iana [] x = false
has_iana ((d, i) ∷ table) x = equal i x || has_iana table x

unfoldable pub has_server : Table → Bytes → Bool
unfolding equal
has_server [] x = false
has_server ((d, i) ∷ table) x = equal d x || has_server table x
