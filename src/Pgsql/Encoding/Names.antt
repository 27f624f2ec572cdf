-- ===== src/Pgsql/Encoding/Names.antt =====
-- Both translations of PostgreSQL's encoding names, one after the other.
use libdbi_drivers.Prelude.{true, ◌≡◌, refl, Bytes}
use libdbi_drivers.Encoding.{has_iana, has_server}
use libdbi_drivers.Encoding.RoundTrip.{
  keeps_iana, keeps_server, keeps_iana-has_iana, keeps_server-has_server,
}
use libdbi_drivers.Pgsql.Encoding.{
  pgsql_encoding_hash, dbd_encoding_to_iana, dbd_encoding_from_iana,
}

keeps : keeps_iana (λ x. dbd_encoding_to_iana (dbd_encoding_from_iana x)) pgsql_encoding_hash ≡ true
unfolding keeps_iana dbd_encoding_to_iana dbd_encoding_from_iana
keeps = refl

keeps_back :
    keeps_server (λ x. dbd_encoding_from_iana (dbd_encoding_to_iana x)) pgsql_encoding_hash ≡ true
unfolding keeps_server dbd_encoding_to_iana dbd_encoding_from_iana
keeps_back = refl

-- An IANA name of the table comes back from its PostgreSQL name.
pub pgsql_to_iana-from_iana :
    (x : Bytes)
    → has_iana pgsql_encoding_hash x ≡ true
    → dbd_encoding_to_iana (dbd_encoding_from_iana x) ≡ x
pgsql_to_iana-from_iana x = keeps_iana-has_iana _ _ x keeps

-- A PostgreSQL name of the table comes back from its IANA name.
pub pgsql_from_iana-to_iana :
    (x : Bytes)
    → has_server pgsql_encoding_hash x ≡ true
    → dbd_encoding_from_iana (dbd_encoding_to_iana x) ≡ x
pgsql_from_iana-to_iana x = keeps_server-has_server _ _ x keeps_back
