-- ===== src/Freetds/Encoding.antt =====
-- The encoding names of drivers/freetds/dbd_freetds.c: `freetds_encoding_hash`,
-- `dbd_encoding_to_iana` and `dbd_encoding_from_iana`.
pub mod Names
use libdbi_drivers.Prelude.{[], ◌∷◌, Bytes, codes}
use libdbi_drivers.CString.{starts_with}
use libdbi_drivers.Encoding.{Table, to_iana, from_iana}

abbrev pub freetds_encoding_hash : Table
freetds_encoding_hash =
    (codes "iso_1", codes "ISO-8859-1")
    ∷ (codes "ascii_8", codes "ISO-8859-1")
    ∷ (codes "utf8", codes "UTF-8")
    ∷ (codes "big5", codes "BIG-5")
    ∷ (codes "cp1250", codes "CP1250")
    ∷ (codes "cp1251", codes "CP1251")
    ∷ (codes "cp1252", codes "CP1252")
    ∷ (codes "cp1253", codes "CP1253")
    ∷ (codes "cp1254", codes "CP1254")
    ∷ (codes "cp1255", codes "CP1255")
    ∷ (codes "cp1256", codes "CP1256")
    ∷ (codes "cp1257", codes "CP1257")
    ∷ (codes "cp1258", codes "CP1258")
    ∷ (codes "cp437", codes "CP437")
    ∷ (codes "cp850", codes "CP850")
    ∷ (codes "cp862", codes "CP862")
    ∷ (codes "cp866", codes "CP866")
    ∷ (codes "cp874", codes "CP874")
    ∷ (codes "cp932", codes "CP932")
    ∷ (codes "cp936", codes "CP936")
    ∷ (codes "cp949", codes "CP949")
    ∷ (codes "cp950", codes "CP950")
    ∷ (codes "iso10", codes "ISO-8859-10")
    ∷ (codes "iso13", codes "ISO-8859-13")
    ∷ (codes "iso14", codes "ISO-8859-14")
    ∷ (codes "iso15", codes "ISO-8859-15")
    ∷ (codes "iso88592", codes "ISO-8859-2")
    ∷ (codes "iso88595", codes "ISO-8859-5")
    ∷ (codes "iso88596", codes "ISO-8859-6")
    ∷ (codes "iso88597", codes "ISO-8859-7")
    ∷ (codes "greek8", codes "ISO-8859-7")
    ∷ (codes "iso88598", codes "ISO-8859-8")
    ∷ (codes "iso88599", codes "ISO-8859-9")
    ∷ (codes "tis620", codes "ISO-IR-166")
    ∷ (codes "koi8", codes "KOI8-R")
    ∷ (codes "mac", codes "MAC")
    ∷ (codes "mac_cyr", codes "MACCYRILLIC")
    ∷ (codes "macgreek", codes "MACGREEK")
    ∷ (codes "macthai", codes "MACTHAI")
    ∷ (codes "macturk", codes "MACTURKISH")
    ∷ (codes "roman8", codes "ROMAN8")
    ∷ (codes "sjis", codes "SJIS")
    ∷ (codes "iso646", codes "US-ASCII")
    ∷ (codes "", codes "")
    ∷ []

unfoldable pub dbd_encoding_to_iana : Bytes → Bytes
unfolding to_iana starts_with
dbd_encoding_to_iana = to_iana starts_with freetds_encoding_hash

unfoldable pub dbd_encoding_from_iana : Bytes → Bytes
unfolding from_iana
dbd_encoding_from_iana = from_iana freetds_encoding_hash
