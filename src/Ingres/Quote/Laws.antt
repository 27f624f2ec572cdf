-- ===== src/Ingres/Quote/Laws.antt =====
-- The literals of the Ingres driver, of strings and of binary data, as a server reads them.
use mathlib.Core.List.{append_assoc}
use libdbi_drivers.Prelude.{
  ℕ, ◌+◌, ◌-◌, ◌*◌, ◌/◌, ◌%◌, ◌<◌, true, false, Option, none, some, [], ◌∷◌, ◌++◌, ◌≡◌, refl, ap,
  arith, ◌==◌, leb, ◌&&◌, if◌then◌else◌, Bytes, length, length-append,
}
use libdbi_drivers.Sql.{Quoted, IsQuoting, EndsLiteral, read_literal, prepend}
use libdbi_drivers.Sql.Doubled.{doubled, read_literal-doubled}
use libdbi_drivers.Ingres.Quote.{quote_chars, dbd_quote_string, hex, hex_bytes, dbd_quote_binary}

quote_chars-doubled : (s : Bytes) → quote_chars s ≡ doubled s
unfolding quote_chars
quote_chars-doubled [] = refl
quote_chars-doubled (c ∷ s) = ground (arith, quote_chars-doubled s)

pub ingres_dbd_quote_string-IsQuoting : IsQuoting (λ s. Unit) dbd_quote_string
unfolding dbd_quote_string
ingres_dbd_quote_string-IsQuoting = record {
  reads_back = λ orig rest p h. rw quote_chars-doubled (read_literal-doubled orig rest h);
  counts = λ orig p. refl;
}

-- The value of a hexadecimal digit of an X'…' literal.
abbrev pub hex_value : ℕ → Option ℕ
hex_value c =
    if leb b'0' c && leb c b'9'
    then some (c - b'0')
    else if leb b'A' c && leb c b'F'
    then some (c - b'A' + 10)
    else none

abbrev pub pair_value : Option ℕ → Option ℕ → Option ℕ
pair_value (some h) (some l) = some (h * 16 + l)
pair_value (some h) none = none
pair_value none l = none

-- How a server reads the digits of an X'…' literal, up to the closing quote.
unfoldable pub read_hex : Bytes → Option (Bytes × Bytes)
read_hex [] = none
read_hex (c ∷ []) = if c == b'\'' then some ([], []) else none
read_hex (c ∷ d ∷ s) =
    let later = read_hex s in
    if c == b'\''
    then some ([], d ∷ s)
    else elim (pair_value (hex_value c) (hex_value d)) [ none ↦ none | some v ↦ prepend v later ]

abbrev pub AllBytes : Bytes → Type 0
AllBytes [] = Unit {0}
AllBytes (c ∷ s) = (c < 256) × AllBytes s

hex_value-hex : (i : ℕ) → i < 16 → hex_value (hex i) ≡ some i
unfolding hex
hex_value-hex i h = ground arith

hex-ne-quote : (i : ℕ) → i < 16 → (hex i == b'\'') ≡ false
unfolding hex
hex-ne-quote i h = ground arith

read_hex-pair :
    (c d v : ℕ) (s w rest : Bytes)
    → (c == b'\'') ≡ false
    → pair_value (hex_value c) (hex_value d) ≡ some v
    → read_hex s ≡ some (w, rest)
    → read_hex (c ∷ d ∷ s) ≡ some (v ∷ w, rest)
unfolding read_hex
read_hex-pair c d v s w rest e p h = rw (e, p, h)

pair_value-hex :
    (c : ℕ) → c < 256 → pair_value (hex_value (hex (c / 16))) (hex_value (hex (c % 16))) ≡ some c
pair_value-hex c h =
    rw (hex_value-hex (c / 16) (omega arith), hex_value-hex (c % 16) (omega arith))
      (ap some (omega arith))

read_hex-hex_bytes :
    (orig rest : Bytes)
    → AllBytes orig
    → read_hex (hex_bytes orig ++ b'\'' ∷ rest) ≡ some (orig, rest)
unfolding hex_bytes
read_hex-hex_bytes [] [] h = unfold read_hex in refl
read_hex-hex_bytes [] (c ∷ rest) h = unfold read_hex in refl
read_hex-hex_bytes (c ∷ s) rest (h, hs) =
    read_hex-pair _ _ c _ s rest (hex-ne-quote (c / 16) (omega arith)) (pair_value-hex c h)
      (read_hex-hex_bytes s rest hs)

length-hex_bytes : (s : Bytes) → length (hex_bytes s) ≡ 2 * length s
unfolding hex_bytes
length-hex_bytes [] = refl
length-hex_bytes (c ∷ s) = omega (arith, length-hex_bytes s)

abbrev pub read_binary : Bytes → Option (Bytes × Bytes)
read_binary (x ∷ q ∷ s) = if x == b'X' && q == b'\'' then read_hex s else none
read_binary _ = none

-- The block is a hexadecimal literal from which a server reads the original bytes, and the driver
-- returns one more than the length of the literal: it counts the terminating zero.
pub dbd_quote_binary_lem :
    (orig rest : Bytes)
    → AllBytes orig
    → (q : Quoted) × (dbd_quote_binary true orig ≡ some q)
      × (read_binary (q.dest ++ rest) ≡ some (orig, rest))
      × (q.returned ≡ length q.dest + 1)
unfolding dbd_quote_binary
dbd_quote_binary_lem orig rest h = (
  record { dest = b'X' ∷ b'\'' ∷ (hex_bytes orig ++ b'\'' ∷ []); returned = length orig * 2 + 4 },
  refl,
  rw append_assoc (read_hex-hex_bytes orig rest h),
  omega (arith, length-hex_bytes orig, length-append {0} (hex_bytes orig) (b'\'' ∷ [])),
)

-- A server reads the literal of a string back unchanged and stops behind it, and the returned number
-- is the literal's length.
pub ingres_dbd_quote_string_lem :
    (orig rest : Bytes)
    → EndsLiteral rest
    → (read_literal ((dbd_quote_string orig).dest ++ rest) ≡ some (orig, rest))
      × ((dbd_quote_string orig).returned ≡ length (dbd_quote_string orig).dest)
ingres_dbd_quote_string_lem orig rest h = (
  ingres_dbd_quote_string-IsQuoting.reads_back orig rest tt h,
  ingres_dbd_quote_string-IsQuoting.counts orig tt,
)
