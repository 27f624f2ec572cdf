-- ===== src/Firebird/Quote.antt =====
-- Quoting in drivers/firebird/dbd_firebird.c: `dbd_quote_string`.
pub mod Laws
use libdbi_drivers.Prelude.{ℕ, ◌+◌, [], ◌∷◌, ◌++◌, ◌==◌, if◌then◌else◌, Bytes, length}
use libdbi_drivers.CString.{c_string}
use libdbi_drivers.Sql.{Quoted}

-- The `for` loop: what it writes from `dest[1]` on for the bytes `worker[i]`.
unfoldable pub copy_chars : Bytes → Bytes
copy_chars [] = []
copy_chars (c ∷ s) = if c == b'\'' then b'\'' ∷ c ∷ copy_chars s else c ∷ copy_chars s

-- The loop runs to `i <= length` and copies the terminating zero too; `strcat` then finds it.
unfoldable pub dbd_quote_string : Bytes → Quoted
unfolding copy_chars c_string
dbd_quote_string orig =
    let copied = copy_chars (orig ++ 0 ∷ []) in
    record { dest = c_string (b'\'' ∷ copied) ++ b'\'' ∷ []; returned = 1 + length copied }
