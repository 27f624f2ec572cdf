-- ===== src/Oracle/Encoding/Hash.antt =====
-- The table of drivers/oracle/oracle_charsets.h.
use libdbi_drivers.Prelude.{[], ◌∷◌, codes}
use libdbi_drivers.Encoding.{Table}

unfoldable pub oracle_encoding_hash : Table
oracle_encoding_hash =
    (codes "EL8DEC", codes "EL8DEC")
    ∷ (codes "EL8GCOS7", codes "EL8GCOS7")
    ∷ (codes "RU8BESTA", codes "RU8BESTA")
    ∷ (codes "SF7ASCII", codes "SF7ASCII")
    ∷ (codes "TR7DEC", codes "TR7DEC")
    ∷ (codes "TR8DEC", codes "TR8DEC")
    ∷ (codes "TR8EBCDIC1026", codes "TR8EBCDIC1026")
    ∷ (codes "TR8EBCDIC1026S", codes "TR8EBCDIC1026")
    ∷ (codes "TR8MACTURKISH", codes "TR8EBCDIC1026")
    ∷ (codes "TR8PC857", codes "IBM857")
    ∷ (codes "US7ASCII", codes "US-ASCII")
    ∷ (codes "WE8GCOS7", codes "WE8GCOS7")
    ∷ (codes "YUG7ASCII", codes "YUG7ASCII")
    ∷ (codes "AL16UTF16", codes "AL16UTF16")
    ∷ (codes "AL32UTF8", codes "AL32UTF8")
    ∷ (codes "AR8ADOS710", codes "AR8ADOS710")
    ∷ (codes "AR8ADOS710T", codes "AR8ADOS710T")
    ∷ (codes "AR8ADOS720", codes "AR8ADOS720")
    ∷ (codes "AR8ADOS720T", codes "AR8ADOS720T")
    ∷ (codes "AR8APTEC715", codes "AR8APTEC715")
    ∷ (codes "AR8APTEC715T", codes "AR8APTEC715T")
    ∷ (codes "AR8ARABICMAC", codes "AR8ARABICMAC")
    ∷ (codes "AR8ARABICMACS", codes "AR8ARABICMACS")
    ∷ (codes "AR8ARABICMACT", codes "AR8ARABICMACT")
    ∷ (codes "AR8ASMO708PLUS", codes "AR8ASMO708PLUS")
    ∷ (codes "AR8ASMO8X", codes "AR8ASMO8X")
    ∷ (codes "AR8EBCDIC420S", codes "AR8EBCDIC420S")
    ∷ (codes "AR8EBCDICX", codes "AR8EBCDICX")
    ∷ (codes "AR8HPARABIC8T", codes "AR8HPARABIC8T")
    ∷ (codes "AR8ISO8859P6", codes "ISO-8859-6")
    ∷ (codes "AR8MSWIN1256", codes "AR8MSWIN1256")
    ∷ (codes "AR8MUSSAD768", codes "AR8MUSSAD768")
    ∷ (codes "AR8MUSSAD768T", codes "AR8MUSSAD768T")
    ∷ (codes "AR8NAFITHA711", codes "AR8NAFITHA711")
    ∷ (codes "AR8NAFITHA711T", codes "AR8NAFITHA711T")
    ∷ (codes "AR8NAFITHA721T", codes "AR8NAFITHA721T")
    ∷ (codes "AR8SAKHR706", codes "AR8SAKHR706")
    ∷ (codes "AR8SAKHR707", codes "AR8SAKHR707")
    ∷ (codes "AR8SAKHR707T", codes "AR8SAKHR707T")
    ∷ (codes "AR8XBASIC", codes "AR8XBASIC")
    ∷ (codes "BLT8EBCDIC1112", codes "BLT8EBCDIC1112")
    ∷ (codes "BLT8EBCDIC1112S", codes "BLT8EBCDIC1112S")
    ∷ (codes "BLT8MSWIN1257", codes "BLT8MSWIN1257")
    ∷ (codes "BN8BSCII", codes "BN8BSCII")
    ∷ (codes "CH7DEC", codes "CH7DEC")
    ∷ (codes "CL8EBCDIC1025", codes "CL8EBCDIC1025")
    ∷ (codes "CL8EBCDIC1025C", codes "CL8EBCDIC1025C")
    ∷ (codes "CL8EBCDIC1025R", codes "CL8EBCDIC1025R")
    ∷ (codes "CL8EBCDIC1025S", codes "CL8EBCDIC1025S")
    ∷ (codes "CL8EBCDIC1025X", codes "CL8EBCDIC1025X")
    ∷ (codes "CL8ISOIR111", codes "CL8ISOIR111")
    ∷ (codes "CL8KOI8R", codes "CL8KOI8R")
    ∷ (codes "CL8KOI8U", codes "CL8KOI8U")
    ∷ (codes "CL8MSWIN1251", codes "CL8MSWIN1251")
    ∷ (codes "D7DEC", codes "D7DEC")
    ∷ (codes "D7SIEMENS9780X", codes "D7SIEMENS9780X")
    ∷ (codes "D8BS2000", codes "D8BS2000")
    ∷ (codes "D8EBCDIC1141", codes "D8EBCDIC1141")
    ∷ (codes "D8EBCDIC273", codes "D8EBCDIC273")
    ∷ (codes "DK7SIEMENS9780X", codes "DK7SIEMENS9780X")
    ∷ (codes "DK8BS2000", codes "DK8BS2000")
    ∷ (codes "DK8EBCDIC1142", codes "DK8EBCDIC1142")
    ∷ (codes "DK8EBCDIC277", codes "DK8EBCDIC277")
    ∷ (codes "E7DEC", codes "E7DEC")
    ∷ (codes "E7SIEMENS9780X", codes "E7SIEMENS9780X")
    ∷ (codes "E8BS2000", codes "E8BS2000")
    ∷ (codes "EE8EBCDIC870", codes "EE8EBCDIC870")
    ∷ (codes "EE8EBCDIC870C", codes "EE8EBCDIC870C")
    ∷ (codes "EE8EBCDIC870S", codes "EE8EBCDIC870S")
    ∷ (codes "EEC8EUROASCI", codes "EEC8EUROASCI")
    ∷ (codes "EEC8EUROPA3", codes "EEC8EUROPA3")
    ∷ (codes "EL8EBCDIC875", codes "EL8EBCDIC875")
    ∷ (codes "EL8EBCDIC875R", codes "EL8EBCDIC875R")
    ∷ (codes "EL8MSWIN1253", codes "EL8MSWIN1253")
    ∷ (codes "F7DEC", codes "F7DEC")
    ∷ (codes "F7SIEMENS9780X", codes "F7SIEMENS9780X")
    ∷ (codes "F8BS2000", codes "F8BS2000")
    ∷ (codes "F8EBCDIC1147", codes "F8EBCDIC1147")
    ∷ (codes "F8EBCDIC297", codes "F8EBCDIC297")
    ∷ (codes "I7DEC", codes "I7DEC")
    ∷ (codes "I8EBCDIC1144", codes "I8EBCDIC1144")
    ∷ (codes "I8EBCDIC280", codes "I8EBCDIC280")
    ∷ (codes "IN8ISCII", codes "IN8ISCII")
    ∷ (codes "IW7IS960", codes "IW7IS960")
    ∷ (codes "IW8EBCDIC1086", codes "IW8EBCDIC1086")
    ∷ (codes "IW8EBCDIC424", codes "IW8EBCDIC424")
    ∷ (codes "IW8EBCDIC424S", codes "IW8EBCDIC424S")
    ∷ (codes "IW8ISO8859P8", codes "ISO-8859-8")
    ∷ (codes "IW8MACHEBREW", codes "IW8MACHEBREW")
    ∷ (codes "IW8MACHEBREWS", codes "IW8MACHEBREWS")
    ∷ (codes "IW8MSWIN1255", codes "IW8MSWIN1255")
    ∷ (codes "IW8PC1507", codes "IW8PC1507")
    ∷ (codes "JA16DBCS", codes "JA16DBCS")
    ∷ (codes "JA16EBCDIC930", codes "JA16EBCDIC930")
    ∷ (codes "JA16EUC", codes "EUC-JP")
    ∷ (codes "JA16EUCYEN", codes "EUC-JP")
    ∷ (codes "JA16MACSJIS", codes "JA16MACSJIS")
    ∷ (codes "JA16SJIS", codes "JA16SJIS")
    ∷ (codes "JA16SJISYEN", codes "JA16SJISYEN")
    ∷ (codes "JA16VMS", codes "JA16VMS")
    ∷ (codes "KO16DBCS", codes "KO16DBCS")
    ∷ (codes "KO16KSC5601", codes "KO16KSC5601")
    ∷ (codes "KO16KSCCS", codes "KO16KSCCS")
    ∷ (codes "KO16MSWIN949", codes "KO16MSWIN949")
    ∷ (codes "LA8ISO6937", codes "LA8ISO6937")
    ∷ (codes "LA8PASSPORT", codes "LA8PASSPORT")
    ∷ (codes "LV8PC8LR", codes "LV8PC8LR")
    ∷ (codes "NDK7DEC", codes "NDK7DEC")
    ∷ (codes "NL7DEC", codes "NL7DEC")
    ∷ (codes "S7DEC", codes "S7DEC")
    ∷ (codes "S7SIEMENS9780X", codes "S7SIEMENS9780X")
    ∷ (codes "S8BS2000", codes "S8BS2000")
    ∷ (codes "S8EBCDIC1143", codes "S8EBCDIC1143")
    ∷ (codes "S8EBCDIC278", codes "S8EBCDIC278")
    ∷ (codes "SF7DEC", codes "SF7DEC")
    ∷ (codes "TH8MACTHAI", codes "TH8MACTHAI")
    ∷ (codes "TH8MACTHAIS", codes "TH8MACTHAIS")
    ∷ (codes "TH8TISASCII", codes "TH8TISASCII")
    ∷ (codes "TH8TISEBCDIC", codes "TH8TISEBCDIC")
    ∷ (codes "TH8TISEBCDICS", codes "TH8TISEBCDICS")
    ∷ (codes "TR7DEC", codes "TR7DEC")
    ∷ (codes "TR8DEC", codes "TR8DEC")
    ∷ (codes "TR8EBCDIC1026", codes "TR8EBCDIC1026")
    ∷ (codes "TR8EBCDIC1026S", codes "TR8EBCDIC1026S")
    ∷ (codes "TR8MACTURKISH", codes "TR8MACTURKISH")
    ∷ (codes "TR8MACTURKISHS", codes "TR8MACTURKISHS")
    ∷ (codes "TR8MSWIN1254", codes "TR8MSWIN1254")
    ∷ (codes "TR8PC857", codes "TR8PC857")
    ∷ (codes "US8BS2000", codes "US8BS2000")
    ∷ (codes "US8PC437", codes "US8PC437")
    ∷ (codes "UTF8", codes "UTF-8")
    ∷ (codes "UTFE", codes "UTFE")
    ∷ (codes "VN8MSWIN1258", codes "VN8MSWIN1258")
    ∷ (codes "VN8VN3VN3", codes "VN8VN3VN3")
    ∷ (codes "WE8BS2000L5", codes "WE8BS2000L5")
    ∷ (codes "WE8DEC", codes "WE8DEC")
    ∷ (codes "WE8DG", codes "WE8DG")
    ∷ (codes "WE8EBCDIC1047", codes "WE8EBCDIC1047")
    ∷ (codes "WE8EBCDIC1047E", codes "WE8EBCDIC1047E")
    ∷ (codes "WE8EBCDIC1140", codes "WE8EBCDIC1140")
    ∷ (codes "WE8EBCDIC1140C", codes "WE8EBCDIC1140C")
    ∷ (codes "WE8EBCDIC1145", codes "WE8EBCDIC1145")
    ∷ (codes "WE8EBCDIC1146", codes "WE8EBCDIC1146")
    ∷ (codes "WE8EBCDIC1148", codes "WE8EBCDIC1148")
    ∷ (codes "WE8EBCDIC1148C", codes "WE8EBCDIC1148C")
    ∷ (codes "WE8EBCDIC284", codes "WE8EBCDIC284")
    ∷ (codes "WE8EBCDIC285", codes "WE8EBCDIC285")
    ∷ (codes "WE8EBCDIC37", codes "WE8EBCDIC37")
    ∷ (codes "WE8EBCDIC37C", codes "WE8EBCDIC37C")
    ∷ (codes "WE8EBCDIC500", codes "WE8EBCDIC500")
    ∷ (codes "WE8EBCDIC500C", codes "WE8EBCDIC500C")
    ∷ (codes "WE8EBCDIC871", codes "WE8EBCDIC871")
    ∷ (codes "WE8EBCDIC924", codes "WE8EBCDIC924")
    ∷ (codes "WE8HP", codes "WE8HP")
    ∷ (codes "WE8ISO8859P9", codes "ISO-8859-9")
    ∷ (codes "WE8MSWIN1252", codes "WE8MSWIN1252")
    ∷ (codes "WE8NCR4970", codes "WE8NCR4970")
    ∷ (codes "WE8NEXTSTEP", codes "WE8NEXTSTEP")
    ∷ (codes "WE8ROMAN8", codes "WE8ROMAN8")
    ∷ (codes "ZHS16CGB231280", codes "ZHS16CGB231280")
    ∷ (codes "ZHS16DBCS", codes "ZHS16DBCS")
    ∷ (codes "ZHS16GBK", codes "ZHS16GBK")
    ∷ (codes "ZHS16MACCGB231280", codes "ZHS16MACCGB231280")
    ∷ (codes "ZHS32GB18030", codes "ZHS32GB18030")
    ∷ (codes "ZHT16BIG5", codes "ZHT16BIG5")
    ∷ (codes "ZHT16CCDC", codes "ZHT16CCDC")
    ∷ (codes "ZHT16DBCS", codes "ZHT16DBCS")
    ∷ (codes "ZHT16DBT", codes "ZHT16DBT")
    ∷ (codes "ZHT16HKSCS", codes "ZHT16HKSCS")
    ∷ (codes "ZHT16MSWIN950", codes "ZHT16MSWIN950")
    ∷ (codes "ZHT32EUC", codes "ZHT32EUC")
    ∷ (codes "ZHT32SOPS", codes "ZHT32SOPS")
    ∷ (codes "ZHT32TRIS", codes "ZHT32TRIS")
    ∷ []
