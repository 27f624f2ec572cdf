-- ===== src/Sql/Binary.antt =====
-- `dbd_quote_binary` of the drivers but the Ingres driver. Six of them are copies of one function, which calls
-- libdbi's `_dbd_encode_binary`; that, `PQescapeBytea` and `mysql_real_escape_string` are parameters.
-- `none` is a write behind the end of the block that is allocated for the literal.
pub mod Room
use libdbi_drivers.Prelude.{
  ℕ, ◌+◌, ◌*◌, ◌-◌, Option, none, some, [], ◌∷◌, ◌++◌, leb, if◌then◌else◌, Bytes, length,
}
use libdbi_drivers.Sql.{Quoted}

-- A block of `size` bytes takes the text with the zero behind it.
abbrev pub in_block : ℕ → Bytes → ℕ → Option Quoted
in_block size text n =
    if leb (length text + 1) size then some (record { dest = text; returned = n }) else none

abbrev pub between_quotes : Bytes → Bytes
between_quotes s = b'\'' ∷ (s ++ b'\'' ∷ [])

-- Nothing is encoded where there is nothing.
abbrev pub encoded : (Bytes → Bytes) → Bytes → Bytes
encoded encode [] = []
encoded encode (c ∷ orig) = encode (c ∷ orig)

module _ (encode : Bytes → Bytes) where
  unfoldable pub quote_encoded : Bytes → Option Quoted
  quote_encoded orig =
      in_block (length orig * 2) (between_quotes (encoded encode orig))
        (length (encoded encode orig) + 2)

  unfoldable pub sqlite3_dbd_quote_binary : Bytes → Option Quoted
  unfolding quote_encoded
  sqlite3_dbd_quote_binary orig = quote_encoded orig

  unfoldable pub sqlite_dbd_quote_binary : Bytes → Option Quoted
  unfolding quote_encoded
  sqlite_dbd_quote_binary orig = quote_encoded orig

  unfoldable pub firebird_dbd_quote_binary : Bytes → Option Quoted
  unfolding quote_encoded
  firebird_dbd_quote_binary orig = quote_encoded orig

  unfoldable pub freetds_dbd_quote_binary : Bytes → Option Quoted
  unfolding quote_encoded
  freetds_dbd_quote_binary orig = quote_encoded orig

  unfoldable pub msql_dbd_quote_binary : Bytes → Option Quoted
  unfolding quote_encoded
  msql_dbd_quote_binary orig = quote_encoded orig

  unfoldable pub oracle_dbd_quote_binary : Bytes → Option Quoted
  unfolding quote_encoded
  oracle_dbd_quote_binary orig = quote_encoded orig

-- `mysql_real_escape_string` writes its text and returns its length.
unfoldable pub mysql_dbd_quote_binary : (Bytes → Bytes) → Bytes → Option Quoted
mysql_dbd_quote_binary escape orig =
    in_block (2 * length orig + 1 + 2) (between_quotes (escape orig)) (length (escape orig) + 2)

-- `PQescapeBytea` returns a text, or a null pointer, and for the length of the text one more. The
-- returned number is 0 for the null pointer, and nothing is written.
unfoldable pub pgsql_dbd_quote_binary : (Bytes → Option Bytes) → Bytes → Option Quoted
pgsql_dbd_quote_binary escape_bytea orig = elim (escape_bytea orig) [
  | none ↦ some (record { dest = []; returned = 0 })
  | some text ↦
      let to_length = length text + 1 in
      in_block (to_length + 2) (between_quotes text) (to_length + 1)
]
