-- ===== src/Oracle/Encoding.antt =====
-- `dbd_get_encoding` of drivers/oracle/dbd_oracle.c, which looks a name of Oracle up in the table.
pub mod Hash
pub mod Names
use libdbi_drivers.Prelude.{[], ◌∷◌, if◌then◌else◌, Bytes, codes}
use libdbi_drivers.CString.{equal}
use libdbi_drivers.Encoding.{Table, is_empty}
use libdbi_drivers.Oracle.Encoding.Hash.{oracle_encoding_hash}

-- The loop over the pairs, and what stands behind it.
unfoldable pub name_in : Table → Bytes → Bytes
unfolding equal
name_in [] buf = codes "UTF-16"
name_in ((d, i) ∷ table) buf =
    let rest = name_in table buf in
    if is_empty d then codes "UTF-16" else if equal d buf then i else rest

-- `buf` is what `OCINlsGetInfo` fills in.
unfoldable pub dbd_get_encoding : Bytes → Bytes
unfolding name_in
dbd_get_encoding buf = name_in oracle_encoding_hash buf
