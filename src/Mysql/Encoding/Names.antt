-- ===== src/Mysql/Encoding/Names.antt =====
-- What MySQL's translations do: `dbd_encoding_to_iana` compares prefixes, since `dbd_get_encoding` hands
-- it the rest of the text of SHOW CREATE DATABASE.
use libdbi_drivers.Prelude.{
  Bool, true, false, ◌||◌, [], ◌∷◌, ◌++◌, ◌≡◌, refl, arith, inl, inr, if◌then◌else◌, Bool-cases,
  Bytes,
}
use libdbi_drivers.CString.{starts_with}
use libdbi_drivers.CString.Laws.{Lacks}
use libdbi_drivers.Encoding.{Table, is_empty, to_iana, has_iana}
use libdbi_drivers.Encoding.RoundTrip.{keeps_iana, keeps_iana-has_iana}
use libdbi_drivers.Mysql.Encoding.{
  mysql_encoding_hash, dbd_encoding_to_iana, dbd_encoding_from_iana,
}

keeps : keeps_iana (λ x. dbd_encoding_to_iana (dbd_encoding_from_iana x)) mysql_encoding_hash ≡ true
unfolding keeps_iana dbd_encoding_to_iana dbd_encoding_from_iana
keeps = refl

-- An IANA name of the table comes back from its MySQL name.
pub mysql_to_iana-from_iana :
    (x : Bytes)
    → has_iana mysql_encoding_hash x ≡ true
    → dbd_encoding_to_iana (dbd_encoding_from_iana x) ≡ x
mysql_to_iana-from_iana x = keeps_iana-has_iana _ _ x keeps

starts_with-space :
    (p s rest : Bytes) → Lacks b' ' p → starts_with p (s ++ b' ' ∷ rest) ≡ starts_with p s
unfolding starts_with
starts_with-space [] s rest h = refl
starts_with-space (a ∷ p) [] rest (h, hs) = ground arith
starts_with-space (a ∷ p) (c ∷ s) rest (h, hs) = ground (arith, starts_with-space p s rest hs)

abbrev NoSpaces : Table → Type 0
NoSpaces [] = Unit {0}
NoSpaces ((d, i) ∷ table) = Lacks b' ' d × NoSpaces table

-- Whether a server's name of the table is a prefix.
unfoldable pub has_prefix_of : Table → Bytes → Bool
unfolding starts_with
has_prefix_of [] s = false
has_prefix_of ((d, i) ∷ table) s =
    if is_empty d then false else (starts_with d s || has_prefix_of table s)

to_iana-space :
    (table : Table) (s rest : Bytes)
    → NoSpaces table
    → has_prefix_of table s ≡ true
    → to_iana starts_with table (s ++ b' ' ∷ rest) ≡ to_iana starts_with table s
unfolding to_iana has_prefix_of
to_iana-space [] s rest n h = cc
to_iana-space (([], i) ∷ table) s rest n h = cc
to_iana-space ((a ∷ d, i) ∷ table) s rest (n, ns) h = elim (Bool-cases (starts_with (a ∷ d) s)) [
  | inl e ↦ ground (arith, starts_with-space (a ∷ d) s rest n)
  | inr e ↦ ground (arith, starts_with-space (a ∷ d) s rest n, to_iana-space table s rest ns)
]

mysql_NoSpaces : NoSpaces mysql_encoding_hash
mysql_NoSpaces = omega arith

-- The name is found at the start of a longer text too, if a space follows it: what comes after a
-- known name in the text of SHOW CREATE DATABASE does not change the translation.
pub mysql_to_iana-space :
    (s rest : Bytes)
    → has_prefix_of mysql_encoding_hash s ≡ true
    → dbd_encoding_to_iana (s ++ b' ' ∷ rest) ≡ dbd_encoding_to_iana s
unfolding dbd_encoding_to_iana
mysql_to_iana-space s rest = to_iana-space mysql_encoding_hash s rest mysql_NoSpaces
