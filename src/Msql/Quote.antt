-- ===== src/Msql/Quote.antt =====
-- Quoting in drivers/msql/dbd_msql.c: `dbd_quote_string`. `_dbd_escape_chars` belongs to libdbi:
-- it is the parameter `escape_chars`, from the string and the characters to escape to what is
-- written at the destination, whose length it returns.
use libdbi_drivers.Prelude.{ℕ, ◌+◌, none, [], ◌∷◌, ◌++◌, ◌≡◌, ◌≢◌, arith, Bytes, length}
use libdbi_drivers.Sql.{Quoted, read_literal}

-- The escaped string is written at `dest`, over the quote that `strcpy` put there.
unfoldable pub dbd_quote_string : (Bytes → Bytes → Bytes) → Bytes → Quoted
dbd_quote_string escape_chars orig =
    let escaped = escape_chars orig (b'\'' ∷ b'"' ∷ b'\\' ∷ []) in
    record { dest = escaped ++ b'\'' ∷ []; returned = length escaped + 2 }

-- Unless the escaped string happens to begin with a quote, which `_dbd_escape_chars` puts a
-- backslash before, what the driver writes is not a literal: its opening quote is gone.
pub dbd_quote_string-unopened :
    (escape_chars : Bytes → Bytes → Bytes) (orig rest : Bytes) (c : ℕ) (s : Bytes)
    → escape_chars orig (b'\'' ∷ b'"' ∷ b'\\' ∷ []) ≡ c ∷ s
    → c ≢ b'\''
    → read_literal ((dbd_quote_string escape_chars orig).dest ++ rest) ≡ none
unfolding dbd_quote_string read_literal
dbd_quote_string-unopened escape_chars orig rest c s e h = rw e (ground arith)
