-- ===== src/Sql/Binary/Room.antt =====
-- The room for binary literals.
use libdbi_drivers.Prelude.{
  ◌+◌, ◌*◌, ◌≤◌, ◌<◌, Option, none, some, [], ◌∷◌, ◌≡◌, arith, Bytes, length, length-append,
}
use libdbi_drivers.Sql.Binary.{
  between_quotes, quote_encoded, mysql_dbd_quote_binary, pgsql_dbd_quote_binary,
}

length-between_quotes : (s : Bytes) → length (between_quotes s) ≡ length s + 2
length-between_quotes s = omega (arith, length-append s (b'\'' ∷ []))

-- `_dbd_encode_binary` does not make data shorter. Then the literal of less than three bytes is written
-- behind the end of the block, in each of the drivers that call it.
pub quote_encoded-none :
    (encode : Bytes → Bytes) (orig : Bytes)
    → ((s : Bytes) → length s ≤ length (encode s))
    → length orig < 3
    → quote_encoded encode orig ≡ none
unfolding quote_encoded
quote_encoded-none encode [] h l = ground arith
quote_encoded-none encode (c ∷ orig) h l =
    ground (arith, length-between_quotes (encode (c ∷ orig)), h (c ∷ orig))

-- `mysql_real_escape_string` writes no more than two characters for each. Then the literal fits into the
-- block, and the returned number is its length, and so it is with `PQescapeBytea` whatever that returns.
pub binary_literals :
    (escape : Bytes → Bytes) (escape_bytea : Bytes → Option Bytes) (orig text : Bytes)
    → ((s : Bytes) → length (escape s) ≤ 2 * length s)
    → escape_bytea orig ≡ some text
    → (mysql_dbd_quote_binary escape orig
        ≡ some (record {
          dest = between_quotes (escape orig);
          returned = length (between_quotes (escape orig));
        }))
      × (pgsql_dbd_quote_binary escape_bytea orig
          ≡ some (record { dest = between_quotes text; returned = length (between_quotes text) }))
unfolding mysql_dbd_quote_binary pgsql_dbd_quote_binary
binary_literals escape escape_bytea orig text h e = (
  ground (arith, length-between_quotes (escape orig), h orig),
  ground (arith, length-between_quotes text),
)
