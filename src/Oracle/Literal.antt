-- ===== src/Oracle/Literal.antt =====
-- The string literals of the Oracle driver, whose function was copied, against those of the SQLite3
-- driver.
use libdbi_drivers.Prelude.{[], ◌∷◌, ◌≡◌, refl, ap, some, ◌++◌, Bytes}
use libdbi_drivers.Sql.{read_literal, EndsLiteral}
use libdbi_drivers.Oracle.Quote.{oracle_escape_string, dbd_quote_string}
use libdbi_drivers.Sqlite3.Quote as Sqlite3Quote
use libdbi_drivers.Sqlite3.Quote.{sqlite3_escape_string}
use libdbi_drivers.Sqlite3.Quote.Literal.{stored, read_literal-dbd_quote_string}

oracle_escape-sqlite3_escape : (s : Bytes) → oracle_escape_string s ≡ sqlite3_escape_string s
unfolding oracle_escape_string sqlite3_escape_string
oracle_escape-sqlite3_escape [] = refl
oracle_escape-sqlite3_escape (c ∷ s) =
    ap (λ (t : Bytes). Sqlite3Quote.escape_char c ++ t) (oracle_escape-sqlite3_escape s)

-- Whatever bytes the string holds, the literal ends at the quote that the driver puts at its end.
pub oracle_read_literal-dbd_quote_string :
    (orig rest : Bytes)
    → EndsLiteral rest
    → read_literal ((dbd_quote_string orig).dest ++ rest) ≡ some (stored orig, rest)
unfolding dbd_quote_string Sqlite3Quote.dbd_quote_string
oracle_read_literal-dbd_quote_string orig rest h =
    rw (oracle_escape-sqlite3_escape orig) (read_literal-dbd_quote_string orig rest h)
