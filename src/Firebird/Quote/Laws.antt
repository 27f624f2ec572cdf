-- ===== src/Firebird/Quote/Laws.antt =====
-- The string literals of the Firebird driver, as a server reads them.
use libdbi_drivers.Prelude.{some, length, [], ◌∷◌, ◌++◌, ◌≡◌, refl, arith, Bytes, length-append}
use libdbi_drivers.Sql.{IsQuoting, EndsLiteral, read_literal}
use libdbi_drivers.Sql.Doubled.{doubled, read_literal-doubled}
use libdbi_drivers.CString.Laws.{Lacks}
use libdbi_drivers.CString.{c_string}
use libdbi_drivers.Firebird.Quote.{copy_chars, dbd_quote_string}

copy_chars-doubled : (s : Bytes) → copy_chars (s ++ 0 ∷ []) ≡ doubled s ++ 0 ∷ []
unfolding copy_chars
copy_chars-doubled [] = refl
copy_chars-doubled (c ∷ s) = ground (arith, copy_chars-doubled s)

c_string-doubled : (s : Bytes) → Lacks 0 s → c_string (doubled s ++ 0 ∷ []) ≡ doubled s
unfolding c_string
c_string-doubled [] h = refl
c_string-doubled (c ∷ s) (h, hs) = ground (arith, c_string-doubled s hs)

dest-doubled :
    (orig : Bytes)
    → Lacks 0 orig
    → (dbd_quote_string orig).dest ≡ b'\'' ∷ (doubled orig ++ b'\'' ∷ [])
unfolding dbd_quote_string
dest-doubled orig h = ground (arith, copy_chars-doubled orig, c_string-doubled orig h)

pub firebird_dbd_quote_string-IsQuoting : IsQuoting (Lacks 0) dbd_quote_string
firebird_dbd_quote_string-IsQuoting = record {
  reads_back = λ orig rest p h. rw (dest-doubled orig p) (read_literal-doubled orig rest h);
  counts = λ orig p. rw (dest-doubled orig p) (
      unfold dbd_quote_string in
      rw copy_chars-doubled (
        omega (
          arith,
          length-append {0} (doubled orig) (0 ∷ []),
          length-append {0} (doubled orig) (b'\'' ∷ []),
        )));
}

-- A server reads the literal of a C string back unchanged and stops behind it, and the returned number
-- is the literal's length.
pub firebird_dbd_quote_string_lem :
    (orig rest : Bytes)
    → Lacks 0 orig
    → EndsLiteral rest
    → (read_literal ((dbd_quote_string orig).dest ++ rest) ≡ some (orig, rest))
      × ((dbd_quote_string orig).returned ≡ length (dbd_quote_string orig).dest)
firebird_dbd_quote_string_lem orig rest p h = (
  firebird_dbd_quote_string-IsQuoting.reads_back orig rest p h,
  firebird_dbd_quote_string-IsQuoting.counts orig p,
)
