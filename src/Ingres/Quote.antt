-- ===== src/Ingres/Quote.antt =====
-- Quoting in drivers/ingres/dbd_ingres.c: `dbd_quote_string` and `dbd_quote_binary`.
pub mod Laws
use libdbi_drivers.Prelude.{
  ℕ, ◌+◌, ◌-◌, ◌*◌, ◌/◌, ◌%◌, Bool, true, false, Option, none, some, [], ◌∷◌, ◌++◌, ◌==◌, ltb,
  if◌then◌else◌, Bytes, length,
}
use libdbi_drivers.Sql.{Quoted}

-- The loop over `orig`, up to its zero.
unfoldable pub quote_chars : Bytes → Bytes
quote_chars [] = []
quote_chars (c ∷ q) = if c == b'\'' then b'\'' ∷ b'\'' ∷ quote_chars q else c ∷ quote_chars q

unfoldable pub dbd_quote_string : Bytes → Quoted
unfolding quote_chars
dbd_quote_string orig =
    let dest = b'\'' ∷ (quote_chars orig ++ b'\'' ∷ []) in
    record { dest = dest; returned = length dest }

-- `hex[i]` of the string "0123456789ABCDEF"
unfoldable pub hex : ℕ → ℕ
hex i = if ltb i 10 then b'0' + i else b'A' + (i - 10)

unfoldable pub hex_bytes : Bytes → Bytes
unfolding hex
hex_bytes [] = []
hex_bytes (c ∷ q) = hex (c / 16) ∷ hex (c % 16) ∷ hex_bytes q

-- The flag says whether `malloc` succeeds; `none` is `DBI_LENGTH_ERROR`.
unfoldable pub dbd_quote_binary : Bool → Bytes → Option Quoted
unfolding hex_bytes
dbd_quote_binary false orig = none
dbd_quote_binary true orig = some (record {
  dest = b'X' ∷ b'\'' ∷ (hex_bytes orig ++ b'\'' ∷ []);
  returned = length orig * 2 + 4;
})
