-- ===== src/Sqlite/Quote.antt =====
-- Quoting in drivers/sqlite/dbd_sqlite.c: `sqlite_escape_string` and `dbd_quote_string`.
use libdbi_drivers.Prelude.{ℕ, ◌+◌, [], ◌∷◌, ◌++◌, ◌==◌, if◌then◌else◌, Bytes, length}
use libdbi_drivers.Sql.{Quoted}

-- The `switch` for one character.
unfoldable pub sqlite_escape_char : ℕ → Bytes
sqlite_escape_char c =
    if c == 0
    then b'\\' ∷ b'0' ∷ []
    else if c == b'\''
    then b'\'' ∷ b'\'' ∷ []
    else if c == 0o32
    then b'\\' ∷ b'Z' ∷ []
    else c ∷ []

unfoldable pub sqlite_escape_string : Bytes → Bytes
unfolding sqlite_escape_char
sqlite_escape_string [] = []
sqlite_escape_string (c ∷ s) = sqlite_escape_char c ++ sqlite_escape_string s

unfoldable pub dbd_quote_string : Bytes → Quoted
unfolding sqlite_escape_string
dbd_quote_string orig =
    let escaped = sqlite_escape_string orig in
    record { dest = b'\'' ∷ (escaped ++ b'\'' ∷ []); returned = length escaped + 2 }
