-- ===== src/Sqlite3/Quote.antt =====
-- Quoting in drivers/sqlite3/dbd_sqlite3.c: `sqlite3_escape_string` and `dbd_quote_string`.
pub mod Literal
use libdbi_drivers.Prelude.{ℕ, ◌+◌, [], ◌∷◌, ◌++◌, ◌==◌, if◌then◌else◌, Bytes, length}
use libdbi_drivers.Sql.{Quoted}

-- The `switch` for one character.
unfoldable pub escape_char : ℕ → Bytes
escape_char c =
    if c == 0
    then b'\\' ∷ b'0' ∷ []
    else if c == b'\''
    then b'\'' ∷ b'\'' ∷ []
    else if c == 0o32
    then b'\\' ∷ b'Z' ∷ []
    else c ∷ []

-- The bytes from `to_start` to `to`, whose number is returned.
unfoldable pub sqlite3_escape_string : Bytes → Bytes
unfolding escape_char
sqlite3_escape_string [] = []
sqlite3_escape_string (c ∷ s) = escape_char c ++ sqlite3_escape_string s

-- No zero is among the bytes that are written, so `strcat` appends behind all of them.
unfoldable pub dbd_quote_string : Bytes → Quoted
unfolding sqlite3_escape_string
dbd_quote_string orig =
    let escaped = sqlite3_escape_string orig in
    record { dest = b'\'' ∷ (escaped ++ b'\'' ∷ []); returned = length escaped + 2 }
