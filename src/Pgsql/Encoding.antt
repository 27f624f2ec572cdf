-- ===== src/Pgsql/Encoding.antt =====
-- The encoding names of drivers/pgsql/dbd_pgsql.c: `pgsql_encoding_hash`,
-- `dbd_encoding_to_iana` and `dbd_encoding_from_iana`.
pub mod Names
use libdbi_drivers.Prelude.{[], ◌∷◌, Bytes, codes}
use libdbi_drivers.CString.{equal}
use libdbi_drivers.Encoding.{Table, to_iana, from_iana}

abbrev pub pgsql_encoding_hash : Table
pgsql_encoding_hash =
    (codes "SQL_ASCII", codes "US-ASCII")
    ∷ (codes "EUC_JP", codes "EUC-JP")
    ∷ (codes "EUC_KR", codes "EUC-KR")
    ∷ (codes "UNICODE", codes "UTF-8")
    ∷ (codes "LATIN1", codes "ISO-8859-1")
    ∷ (codes "LATIN2", codes "ISO-8859-2")
    ∷ (codes "LATIN3", codes "ISO-8859-3")
    ∷ (codes "LATIN4", codes "ISO-8859-4")
    ∷ (codes "LATIN5", codes "ISO-8859-9")
    ∷ (codes "LATIN6", codes "ISO-8859-10")
    ∷ (codes "LATIN7", codes "ISO-8859-13")
    ∷ (codes "LATIN8", codes "ISO-8859-14")
    ∷ (codes "LATIN9", codes "ISO-8859-15")
    ∷ (codes "LATIN10", codes "ISO-8859-16")
    ∷ (codes "ISO-8859-5", codes "ISO-8859-5")
    ∷ (codes "ISO-8859-6", codes "ISO-8859-6")
    ∷ (codes "ISO-8859-7", codes "ISO-8859-7")
    ∷ (codes "ISO-8859-8", codes "ISO-8859-8")
    ∷ (codes "KOI8", codes "KOI8-R")
    ∷ (codes "WIN", codes "windows-1251")
    ∷ (codes "ALT", codes "IBM866")
    ∷ (codes "", codes "")
    ∷ []

unfoldable pub dbd_encoding_to_iana : Bytes → Bytes
unfolding to_iana equal
dbd_encoding_to_iana = to_iana equal pgsql_encoding_hash

unfoldable pub dbd_encoding_from_iana : Bytes → Bytes
unfolding from_iana
dbd_encoding_from_iana = from_iana pgsql_encoding_hash
