-- ===== src/Oracle/Quote.antt =====
-- Quoting in drivers/oracle/dbd_oracle.c: `oracle_escape_string` and `dbd_quote_string`.
use libdbi_drivers.Prelude.{ℕ, ◌+◌, [], ◌∷◌, ◌++◌, ◌==◌, if◌then◌else◌, Bytes, length}
use libdbi_drivers.Sql.{Quoted}

-- The `switch` for one character.
unfoldable pub oracle_escape_char : ℕ → Bytes
oracle_escape_char c =
    if c == 0
    then b'\\' ∷ b'0' ∷ []
    else if c == b'\''
    then b'\'' ∷ b'\'' ∷ []
    else if c == 0o32
    then b'\\' ∷ b'Z' ∷ []
    else c ∷ []

unfoldable pub oracle_escape_string : Bytes → Bytes
unfolding oracle_escape_char
oracle_escape_string [] = []
oracle_escape_string (c ∷ s) = oracle_escape_char c ++ oracle_escape_string s

unfoldable pub dbd_quote_string : Bytes → Quoted
unfolding oracle_escape_string
dbd_quote_string orig =
    let escaped = oracle_escape_string orig in
    record { dest = b'\'' ∷ (escaped ++ b'\'' ∷ []); returned = length escaped + 2 }
