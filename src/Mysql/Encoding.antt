-- ===== src/Mysql/Encoding.antt =====
-- The encoding names of drivers/mysql/dbd_mysql.c: `mysql_encoding_hash`,
-- `dbd_encoding_to_iana` and `dbd_encoding_from_iana`.
pub mod Names
use libdbi_drivers.Prelude.{[], ◌∷◌, Bytes, codes}
use libdbi_drivers.CString.{starts_with}
use libdbi_drivers.Encoding.{Table, to_iana, from_iana}

abbrev pub mysql_encoding_hash : Table
mysql_encoding_hash =
    (codes "ascii", codes "US-ASCII")
    ∷ (codes "ujis", codes "EUC-JP")
    ∷ (codes "euc_kr", codes "EUC-KR")
    ∷ (codes "euckr", codes "EUC-KR")
    ∷ (codes "utf8", codes "UTF-8")
    ∷ (codes "latin1", codes "ISO-8859-1")
    ∷ (codes "latin2", codes "ISO-8859-2")
    ∷ (codes "latin5", codes "ISO-8859-9")
    ∷ (codes "latin7", codes "ISO-8859-13")
    ∷ (codes "greek", codes "ISO-8859-7")
    ∷ (codes "hebrew", codes "ISO-8859-8")
    ∷ (codes "koi8_ru", codes "KOI8-R")
    ∷ (codes "koi8r", codes "KOI8-R")
    ∷ (codes "koi8_ukr", codes "KOI8-U")
    ∷ (codes "koi8u", codes "KOI8-U")
    ∷ (codes "cp1251", codes "windows-1251")
    ∷ (codes "win1250", codes "windows-1250")
    ∷ (codes "cp1250", codes "windows-1250")
    ∷ (codes "cp1256", codes "windows-1256")
    ∷ (codes "win1257", codes "windows-1257")
    ∷ (codes "cp1257", codes "windows-1257")
    ∷ (codes "cp850", codes "IBM850")
    ∷ (codes "cp852", codes "IBM852")
    ∷ (codes "dos", codes "IBM865")
    ∷ (codes "cp866", codes "IBM866")
    ∷ (codes "big5", codes "Big5")
    ∷ (codes "gb2312", codes "GB2312")
    ∷ (codes "sjis", codes "Shift_JIS")
    ∷ (codes "danish", codes "ISO646-NO")
    ∷ (codes "hungarian", codes "ISO646-HU")
    ∷ (codes "gbk", codes "GBK")
    ∷ (codes "ucs2", codes "ISO-10646-UCS-2")
    ∷ (codes "dec8", codes "DEC-MCS")
    ∷ (codes "tis620", codes "TIS-620")
    ∷ (codes "hp8", codes "hp-roman8")
    ∷ (codes "", codes "")
    ∷ []

unfoldable pub dbd_encoding_to_iana : Bytes → Bytes
unfolding to_iana starts_with
dbd_encoding_to_iana = to_iana starts_with mysql_encoding_hash

unfoldable pub dbd_encoding_from_iana : Bytes → Bytes
unfolding from_iana
dbd_encoding_from_iana = from_iana mysql_encoding_hash
