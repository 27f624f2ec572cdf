-- ===== src/Freetds/Encoding/Names.antt =====
-- What FreeTDS's translations do: `dbd_encoding_to_iana` compares prefixes, and the table has `mac`
-- before the longer names that begin with it.
use libdbi_drivers.Prelude.{true, if◌then◌else◌, ◌≡◌, refl, Bytes, codes}
use libdbi_drivers.CString.{starts_with}
use libdbi_drivers.Encoding.{has_iana}
use libdbi_drivers.Encoding.RoundTrip.{agrees_iana, agrees_iana-has_iana}
use libdbi_drivers.Freetds.Encoding.{
  freetds_encoding_hash, dbd_encoding_to_iana, dbd_encoding_from_iana,
}

-- MAC in place of the names that begin with it.
unfoldable pub without_script : Bytes → Bytes
unfolding starts_with
without_script x = if starts_with (codes "MAC") x then codes "MAC" else x

agrees :
    agrees_iana
      (λ x. dbd_encoding_to_iana (dbd_encoding_from_iana x))
      without_script
      freetds_encoding_hash
    ≡ true
unfolding agrees_iana dbd_encoding_to_iana dbd_encoding_from_iana without_script
agrees = refl

-- An IANA name of the table comes back from its FreeTDS name, but MACCYRILLIC, MACGREEK, MACTHAI and
-- MACTURKISH come back as MAC.
pub freetds_to_iana-from_iana :
    (x : Bytes)
    → has_iana freetds_encoding_hash x ≡ true
    → dbd_encoding_to_iana (dbd_encoding_from_iana x) ≡ without_script x
freetds_to_iana-from_iana x = agrees_iana-has_iana _ _ _ x agrees
