-- ===== src/Freetds/Quote.antt =====
-- Quoting in drivers/freetds/dbd_freetds.c: `_dbd_freetds_escape_chars` and `dbd_quote_string`.
pub mod Laws
use libdbi_drivers.Prelude.{
  ℕ, ◌+◌, Bool, true, false, ◌||◌, [], ◌∷◌, ◌++◌, ◌==◌, if◌then◌else◌, Bytes, length,
}
use libdbi_drivers.Sql.{Quoted}

-- The inner loop, which runs over the characters to escape until one is found.
unfoldable pub to_escape : ℕ → Bytes → Bool
to_escape c [] = false
to_escape c (e ∷ es) = c == e || to_escape c es

-- What is written before the final zero. The returned `len` counts it.
unfoldable pub _dbd_freetds_escape_chars : Bytes → Bytes → Bytes
unfolding to_escape
_dbd_freetds_escape_chars [] toescape = []
_dbd_freetds_escape_chars (c ∷ s) toescape =
    let rest = c ∷ _dbd_freetds_escape_chars s toescape in
    if to_escape c toescape then b'\'' ∷ rest else rest

unfoldable pub dbd_quote_string : Bytes → Quoted
unfolding _dbd_freetds_escape_chars
dbd_quote_string orig =
    let escaped = _dbd_freetds_escape_chars orig (b'\'' ∷ []) in
    record { dest = b'\'' ∷ (escaped ++ b'\'' ∷ []); returned = length escaped + 2 }
