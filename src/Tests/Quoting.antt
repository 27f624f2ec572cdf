-- ===== src/Tests/Quoting.antt =====
-- The drivers' quoting at concrete inputs.
use libdbi_drivers.Prelude.{◌+◌, true, some, [], ◌∷◌, ◌++◌, ◌≡◌, arith, Bytes, codes, length}
use libdbi_drivers.Sql.{Quoted, read_literal}
use libdbi_drivers.Ingres.Quote as IngresQuote
use libdbi_drivers.Ingres.Quote.Laws.{read_binary, dbd_quote_binary_lem}
use libdbi_drivers.Sqlite3.Quote as Sqlite3Quote
use libdbi_drivers.Sqlite3.Quote.Literal.{read_literal-dbd_quote_string}

read_literal-dbd_quote_string_example :
    read_literal ((Sqlite3Quote.dbd_quote_string (codes "it's")).dest ++ codes ", 1)")
    ≡ some (codes "it's", codes ", 1)")
read_literal-dbd_quote_string_example =
    read_literal-dbd_quote_string (codes "it's") (codes ", 1)") (omega arith)

dbd_quote_binary_lem_example :
    (q : Quoted) × (IngresQuote.dbd_quote_binary true (0 ∷ 255 ∷ []) ≡ some q)
    × (read_binary (q.dest ++ codes ")") ≡ some (0 ∷ 255 ∷ [], codes ")"))
    × (q.returned ≡ length q.dest + 1)
dbd_quote_binary_lem_example = dbd_quote_binary_lem (0 ∷ 255 ∷ []) (codes ")") (omega arith)

-- `_dbd_escape_chars` with a backslash before each character that is to be escaped.
abbrev backslash_all : Bytes → Bytes → Bytes
backslash_all [] escaped = []
backslash_all (c ∷ s) escaped = b'\\' ∷ c ∷ backslash_all s escaped
