-- ===== src/Firebird/Encoding.antt =====
-- The encoding names of drivers/firebird (firebird_charsets.h and dbd_firebird.c): `firebird_encoding_hash`,
-- `dbd_encoding_to_iana` and `dbd_encoding_from_iana`.
pub mod Names
use libdbi_drivers.Prelude.{[], ◌∷◌, Bytes, codes}
use libdbi_drivers.CString.{starts_with}
use libdbi_drivers.Encoding.{Table, to_iana, from_iana}

abbrev pub firebird_encoding_hash : Table
firebird_encoding_hash =
    (codes "NONE", codes "US-ASCII")
    ∷ (codes "ASCII", codes "US-ASCII")
    ∷ (codes "ASCII7", codes "US-ASCII")
    ∷ (codes "USASCII", codes "US-ASCII")
    ∷ (codes "DOS437", codes "US-ASCII")
    ∷ (codes "DOS_437", codes "")
    ∷ (codes "BIG_5", codes "Big5")
    ∷ (codes "BIG5, , ", codes "Big5")
    ∷ (codes "WIN_950", codes "Big5")
    ∷ (codes "DOS_950", codes "Big5")
    ∷ (codes "DOS737", codes "latin-greek")
    ∷ (codes "DOS_737", codes "latin-greek")
    ∷ (codes "DOS775", codes "ISO-8859-7")
    ∷ (codes "DOS850", codes "ISO-8859-1")
    ∷ (codes "LATIN1", codes "ISO-8859-1")
    ∷ (codes "DOS_850", codes "ISO-8859-1")
    ∷ (codes "DOS852", codes "ISO-8859-2")
    ∷ (codes "LATIN2", codes "ISO-8859-2")
    ∷ (codes "DOS_852", codes "ISO-8859-2")
    ∷ (codes "DOS857", codes "IBM857")
    ∷ (codes "DOS_857", codes "IBM857")
    ∷ (codes "DOS858", codes "")
    ∷ (codes "DOS_858", codes "")
    ∷ (codes "DOS860", codes "PT")
    ∷ (codes "DOS_860", codes "PT")
    ∷ (codes "DOS861", codes "ISO-8859-1")
    ∷ (codes "DOS_861", codes "ISO-8859-1")
    ∷ (codes "DOS862", codes "ISO-8859-8")
    ∷ (codes "DOS_862", codes "ISO-8859-8")
    ∷ (codes "DOS863", codes "ISO646-FR")
    ∷ (codes "DOS_863", codes "ISO646-FR")
    ∷ (codes "DOS864", codes "ISO-8859-6")
    ∷ (codes "DOS_864", codes "ISO-8859-6")
    ∷ (codes "DOS865", codes "ISO_8859-1")
    ∷ (codes "DOS_865", codes "ISO_8859-1")
    ∷ (codes "DOS866", codes "")
    ∷ (codes "DOS_866", codes "")
    ∷ (codes "DOS869", codes "ISO-8859-7")
    ∷ (codes "DOS_869", codes "ISO-8859-7")
    ∷ (codes "EUCJ_0208", codes "")
    ∷ (codes "EUCJ", codes "ISO-10646-J-1")
    ∷ (codes "GB_2312", codes "")
    ∷ (codes "DOS_936", codes "")
    ∷ (codes "WIN_936", codes "")
    ∷ (codes "GB2312", codes "")
    ∷ (codes "ISO8859_1", codes "ISO-8859-1")
    ∷ (codes "ISO8859_2", codes "ISO-8859-2")
    ∷ (codes "ISO-8859-2", codes "ISO-8859-2")
    ∷ (codes "LATIN2", codes "ISO-8859-2")
    ∷ (codes "ISO88592", codes "ISO-8859-2")
    ∷ (codes "ISO8859_3", codes "ISO-8859-3")
    ∷ (codes "ISO-8859-3", codes "ISO-8859-3")
    ∷ (codes "LATIN3", codes "ISO-8859-3")
    ∷ (codes "ISO88593", codes "ISO-8859-3")
    ∷ (codes "ISO8859_4", codes "ISO-8859-4")
    ∷ (codes "ISO-8859-4", codes "ISO-8859-4")
    ∷ (codes "LATIN4", codes "ISO-8859-4")
    ∷ (codes "ISO88594", codes "ISO-8859-4")
    ∷ (codes "ISO8859_6", codes "ISO-8859-6")
    ∷ (codes "ISO-8859-6", codes "ISO-8859-6")
    ∷ (codes "ISO8859_7", codes "ISO-8859-7")
    ∷ (codes "ISO-8859-7", codes "ISO-8859-7")
    ∷ (codes "ISO88597", codes "ISO-8859-7")
    ∷ (codes "ISO8859_8", codes "ISO-8859-8")
    ∷ (codes "ISO-8859-8", codes "ISO-8859-8")
    ∷ (codes "ISO88598", codes "ISO-8859-8")
    ∷ (codes "ISO8859_9", codes "ISO-8859-9")
    ∷ (codes "ISO-8859-9", codes "ISO-8859-9")
    ∷ (codes "LATIN5", codes "ISO-8859-9")
    ∷ (codes "ISO88599", codes "ISO-8859-9")
    ∷ (codes "ISO8859_13", codes "ISO-8859-13")
    ∷ (codes "ISO-8859-13", codes "ISO-8859-13")
    ∷ (codes "LATIN7", codes "ISO-8859-13")
    ∷ (codes "ISO885913", codes "ISO-8859-13")
    ∷ (codes "KSC_5601", codes "iso-ir-149")
    ∷ (codes "OS_949", codes "iso-ir-149")
    ∷ (codes "WIN_949", codes "iso-ir-149")
    ∷ (codes "KSC5601", codes "iso-ir-149")
    ∷ (codes "OCTETS", codes "")
    ∷ (codes "BINARY", codes "")
    ∷ (codes "SJIS_0208", codes "Shift_JIS")
    ∷ (codes "SJIS", codes "Shift_JIS")
    ∷ (codes "UNICODE_FSS", codes "UTF-8")
    ∷ (codes "SQL_TEXT", codes "UTF-8")
    ∷ (codes "UTF_FSS", codes "UTF-8")
    ∷ (codes "UTF-8", codes "UTF-8")
    ∷ (codes "UTF8", codes "UTF-8")
    ∷ (codes "WIN1250", codes "windows-1250")
    ∷ (codes "WIN_1250", codes "windows-1250")
    ∷ (codes "WIN1251", codes "windows-1251")
    ∷ (codes "WIN_1251", codes "windows-1251")
    ∷ (codes "WIN1252", codes "windows-1252")
    ∷ (codes "WIN_1252", codes "windows-1252")
    ∷ (codes "WIN1253", codes "windows-1253")
    ∷ (codes "WIN_1253", codes "windows-1253")
    ∷ (codes "WIN1254", codes "windows-1254")
    ∷ (codes "WIN_1254", codes "windows-1254")
    ∷ (codes "WIN1255", codes "windows-1255")
    ∷ (codes "WIN_1255", codes "windows-1255")
    ∷ (codes "WIN1256", codes "windows-1256")
    ∷ (codes "WIN_1256", codes "windows-1256")
    ∷ (codes "WIN1257", codes "windows-1257")
    ∷ (codes "WIN_1257", codes "windows-1257")
    ∷ (codes "", codes "")
    ∷ []

unfoldable pub dbd_encoding_to_iana : Bytes → Bytes
unfolding to_iana starts_with
dbd_encoding_to_iana = to_iana starts_with firebird_encoding_hash

unfoldable pub dbd_encoding_from_iana : Bytes → Bytes
unfolding from_iana
dbd_encoding_from_iana = from_iana firebird_encoding_hash
