-- ===== src/Mysql/Charset/Auto.antt =====
-- The encoding of the database, taken over for the connection.
use libdbi_drivers.Prelude.{true, none, some, [], ◌∷◌, ◌++◌, ◌≡◌, refl, arith, Bytes, codes}
use libdbi_drivers.CString.{strstr, starts_with}
use libdbi_drivers.Encoding.{Table, has_iana}
use libdbi_drivers.Mysql.Encoding.{
  mysql_encoding_hash, dbd_encoding_to_iana, dbd_encoding_from_iana,
}
use libdbi_drivers.Mysql.Encoding.Names.{
  has_prefix_of, mysql_to_iana-space, mysql_to_iana-from_iana,
}
use libdbi_drivers.Mysql.Charset.{
  Reply, static, at, in_schema, translated, dbd_get_encoding, set_names, encoding_statements,
}

strstr-nil : strstr [] (codes "CHARACTER SET") ≡ none
unfolding strstr
strstr-nil = refl

in_schema-at :
    (s rest : Bytes)
    → strstr s (codes "CHARACTER SET") ≡ some (codes "CHARACTER SET " ++ rest)
    → in_schema (some (some s)) ≡ at rest
unfolding in_schema
in_schema-at [] rest e = let n = strstr-nil in cc
in_schema-at (c ∷ s) rest e = rw e refl

starts_with-longer : (p s rest : Bytes) → starts_with p s ≡ true → starts_with p (s ++ rest) ≡ true
unfolding starts_with
starts_with-longer [] s rest h = refl
starts_with-longer (a ∷ p) [] rest h = ground arith
starts_with-longer (a ∷ p) (c ∷ s) rest h = ground (arith, starts_with-longer p s rest)

has_prefix_of-longer :
    (table : Table) (s rest : Bytes)
    → has_prefix_of table s ≡ true
    → has_prefix_of table (s ++ rest) ≡ true
unfolding has_prefix_of
has_prefix_of-longer [] s rest h = h
has_prefix_of-longer (([], i) ∷ table) s rest h = h
has_prefix_of-longer ((a ∷ d, i) ∷ table) s rest h =
    ground (arith, starts_with-longer (a ∷ d) s rest, has_prefix_of-longer table s rest)

translated-space :
    (name rest : Bytes)
    → has_prefix_of mysql_encoding_hash name ≡ true
    → translated (name ++ b' ' ∷ rest) ≡ static (dbd_encoding_to_iana name)
unfolding translated
translated-space name rest h =
    rw
      (
        has_prefix_of-longer mysql_encoding_hash name (b' ' ∷ rest) h,
        mysql_to_iana-space name rest h,
      )
      refl

module _ (ask : Bytes → Reply) where
  dbd_get_encoding-schema :
      (current_db schema name rest : Bytes)
      → ask (codes "SHOW CREATE DATABASE " ++ current_db) ≡ some (some schema)
      → strstr schema (codes "CHARACTER SET")
        ≡ some (codes "CHARACTER SET " ++ (name ++ b' ' ∷ rest))
      → has_prefix_of mysql_encoding_hash name ≡ true
      → dbd_get_encoding ask (some (codes "auto")) current_db ≡ static (dbd_encoding_to_iana name)
  unfolding dbd_get_encoding
  dbd_get_encoding-schema current_db schema name rest reply keyword known =
      rw (reply, in_schema-at schema (name ++ b' ' ∷ rest) keyword)
        (translated-space name rest known)

  -- With the encoding "auto", on a server whose statement for the database names MySQL's name of an
  -- encoding that the table knows by its IANA name, behind the first CHARACTER SET and with a space
  -- after it, the connection is set to that encoding and nothing else is sent.
  pub encoding_statements-auto :
      (current_db schema iana rest : Bytes)
      → ask (codes "SHOW CREATE DATABASE " ++ current_db) ≡ some (some schema)
      → has_iana mysql_encoding_hash iana ≡ true
      → has_prefix_of mysql_encoding_hash (dbd_encoding_from_iana iana) ≡ true
      → strstr schema (codes "CHARACTER SET")
        ≡ some (codes "CHARACTER SET " ++ (dbd_encoding_from_iana iana ++ b' ' ∷ rest))
      → encoding_statements ask (some (codes "auto")) current_db ≡ some (set_names ask iana ∷ [])
  unfolding encoding_statements
  encoding_statements-auto current_db schema iana rest reply known prefix keyword =
      rw
        (
          dbd_get_encoding-schema current_db schema (dbd_encoding_from_iana iana) rest reply keyword
              prefix,
          mysql_to_iana-from_iana iana known,
        )
        refl
