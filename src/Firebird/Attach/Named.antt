-- ===== src/Firebird/Attach/Named.antt =====
-- When the parameter block and the name of the database can be made.
use libdbi_drivers.Prelude.{
  ℕ, ◌+◌, ◌≤◌, ◌<◌, Option, some, [], ◌∷◌, ◌++◌, ◌≡◌, ◌≢◌, refl, inl, inr, Bool-cases, arith, Bytes,
  length, length-append,
}
use libdbi_drivers.Firebird.Encoding.{dbd_encoding_from_iana}
use libdbi_drivers.Firebird.Attach.{
  DpbCodes, chosen_encoding, dpb, ends_with_slash, chosen_dbdir, at_host, in_path, in_directory,
  _firebird_populate_db_string, dbase,
}
use libdbi_drivers.Firebird.Attach.Parameters.{read_dpb-dpb}

-- With a user and a password, and at most 246 characters in all, there is a parameter block.
pub dpb-some :
    (isc : DpbCodes) (username password : Bytes) (encoding : Option Bytes)
    → length username + length password + length (dbd_encoding_from_iana (chosen_encoding encoding))
      ≤ 246
    → (block : Bytes) × (dpb isc (some username) (some password) encoding ≡ some block)
dpb-some isc username password encoding h =
    let (block, e, _) = read_dpb-dpb isc username password _ encoding refl h in (block, e)

in_path-some :
    (path_max : ℕ) (path : Bytes) → length path < path_max → in_path path_max path ≡ some path
in_path-some path_max path h = ground arith

in_directory-some :
    (path_max : ℕ) (dbdir dbname : Bytes)
    → dbdir ≢ []
    → length dbdir + length dbname + 1 < path_max
    → (path : Bytes) × (in_directory path_max dbdir dbname ≡ some path)
in_directory-some path_max [] dbname n h = absurd (n refl)
in_directory-some path_max (c ∷ dbdir) dbname n h =
    elim (Bool-cases (ends_with_slash (c ∷ dbdir))) [
      | inl e ↦ (
        (c ∷ dbdir) ++ dbname,
        rw e (
            in_path-some path_max ((c ∷ dbdir) ++ dbname)
              (ground (arith, length-append (c ∷ dbdir) dbname))),
      )
      | inr e ↦ (
        (c ∷ dbdir) ++ b'/' ∷ dbname,
        rw e (
            in_path-some path_max ((c ∷ dbdir) ++ b'/' ∷ dbname)
              (ground (arith, length-append (c ∷ dbdir) (b'/' ∷ dbname)))),
      )
    ]

-- With a directory whose path fits in its array, there is a name to attach to.
pub dbase-some :
    (path_max : ℕ) (default_dbdir : Bytes) (dbdir host : Option Bytes) (dbname : Bytes)
    → chosen_dbdir default_dbdir dbdir ≢ []
    → length (chosen_dbdir default_dbdir dbdir) + length dbname + 1 < path_max
    → (name : Bytes) × (dbase path_max default_dbdir dbdir host dbname ≡ some name)
unfolding dbase _firebird_populate_db_string
dbase-some path_max default_dbdir dbdir host dbname n h =
    let (path, e) = in_directory-some path_max (chosen_dbdir default_dbdir dbdir) dbname n h in
    (at_host host path, rw (dbase, e) refl)
