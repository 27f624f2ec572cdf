-- ===== src/Firebird/Encoding/Names.antt =====
-- The translations of Firebird's encoding names. The table has pairs with an empty IANA name in its middle,
-- and `dbd_encoding_to_iana` compares prefixes.
use libdbi_drivers.Prelude.{◌++◌, ◌≡◌, ◌≢◌, refl, sym, inl, inr, Bool-cases, Bytes, codes}
use libdbi_drivers.CString.{equal}
use libdbi_drivers.CString.Laws.{equal_iff}
use libdbi_drivers.Firebird.Encoding.{dbd_encoding_to_iana, dbd_encoding_from_iana}

-- No IANA name but US-ASCII is ever translated.
pub firebird_from_iana-ne : (x : Bytes) → x ≢ codes "US-ASCII" → dbd_encoding_from_iana x ≡ x
unfolding dbd_encoding_from_iana
firebird_from_iana-ne x h = elim (Bool-cases (equal (codes "US-ASCII") x)) [
  | inl e ↦ absurd (h (sym ((equal_iff (codes "US-ASCII") x).0 e)))
  | inr e ↦ rw e
]

-- Every name that begins with ISO8859_1, ISO8859_13 among them, is translated to ISO-8859-1.
pub firebird_to_iana-iso8859_1 :
    (rest : Bytes) → dbd_encoding_to_iana (codes "ISO8859_1" ++ rest) ≡ codes "ISO-8859-1"
unfolding dbd_encoding_to_iana
firebird_to_iana-iso8859_1 rest = refl
