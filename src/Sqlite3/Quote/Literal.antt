-- ===== src/Sqlite3/Quote/Literal.antt =====
-- What SQLite reads of a quoted string. It knows no backslash, so the two characters that the
-- driver escapes by one are read back as two.
use libdbi_drivers.Prelude.{
  ◌+◌, ◌*◌, ◌≤◌, some, [], ◌∷◌, ◌++◌, ◌≡◌, ◌≢◌, refl, arith, ◌==◌, if◌then◌else◌, Bytes, length,
  length-append,
}
use libdbi_drivers.Sql.{read_literal, EndsLiteral, IsQuoting}
use libdbi_drivers.Sql.Doubled.{doubled, read_literal-doubled}
use libdbi_drivers.Sqlite3.Quote.{sqlite3_escape_string, dbd_quote_string}

-- What is stored for a string.
abbrev pub stored : Bytes → Bytes
stored [] = []
stored (c ∷ s) =
    if c == 0
    then b'\\' ∷ b'0' ∷ stored s
    else if c == 0o32
    then b'\\' ∷ b'Z' ∷ stored s
    else c ∷ stored s

-- The C strings that are stored as they are.
abbrev pub IsPlain : Bytes → Type 0
IsPlain [] = Unit {0}
IsPlain (c ∷ s) = (c ≢ 0) × (c ≢ 0o32) × IsPlain s

stored-IsPlain : (s : Bytes) → IsPlain s → stored s ≡ s
stored-IsPlain [] h = refl
stored-IsPlain (c ∷ s) (h, k, hs) = ground (arith, stored-IsPlain s hs)

escape-doubled : (s : Bytes) → sqlite3_escape_string s ≡ doubled (stored s)
unfolding sqlite3_escape_string
escape-doubled [] = refl
escape-doubled (c ∷ s) = ground (arith, escape-doubled s)

-- Whatever bytes the string holds, the literal ends at the quote that the driver puts at its end:
-- nothing in the string reaches the server as a part of the statement.
pub read_literal-dbd_quote_string :
    (orig rest : Bytes)
    → EndsLiteral rest
    → read_literal ((dbd_quote_string orig).dest ++ rest) ≡ some (stored orig, rest)
unfolding dbd_quote_string
read_literal-dbd_quote_string orig rest h =
    rw escape-doubled (read_literal-doubled (stored orig) rest h)

pub dbd_quote_string-IsQuoting : IsQuoting IsPlain dbd_quote_string
dbd_quote_string-IsQuoting = record {
  reads_back =
      λ orig rest p h. rw (stored-IsPlain orig p) at (read_literal-dbd_quote_string orig rest h);
  counts = λ orig p.
      unfold dbd_quote_string in
      omega (arith, length-append {0} (sqlite3_escape_string orig) (b'\'' ∷ []));
}

length-stored : (s : Bytes) → length (sqlite3_escape_string s) ≤ 2 * length s
unfolding sqlite3_escape_string
length-stored [] = omega arith
length-stored (c ∷ s) = ground (arith, length-stored s)

-- A destination of twice the string's length and three bytes holds the literal and its zero.
pub length-dbd_quote_string :
    (orig : Bytes) → length (dbd_quote_string orig).dest + 1 ≤ 2 * length orig + 3
unfolding dbd_quote_string
length-dbd_quote_string orig =
    omega (arith, length-stored orig, length-append {0} (sqlite3_escape_string orig) (b'\'' ∷ []))

-- A server reads the literal of a C string without the character 032 back unchanged and stops behind
-- it, and the returned number is the literal's length.
pub sqlite3_dbd_quote_string_lem :
    (orig rest : Bytes)
    → IsPlain orig
    → EndsLiteral rest
    → (read_literal ((dbd_quote_string orig).dest ++ rest) ≡ some (orig, rest))
      × ((dbd_quote_string orig).returned ≡ length (dbd_quote_string orig).dest)
sqlite3_dbd_quote_string_lem orig rest p h =
    (dbd_quote_string-IsQuoting.reads_back orig rest p h, dbd_quote_string-IsQuoting.counts orig p)
