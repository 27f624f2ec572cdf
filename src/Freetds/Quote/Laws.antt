-- ===== src/Freetds/Quote/Laws.antt =====
-- The string literals of the FreeTDS driver, as a server reads them.
use libdbi_drivers.Prelude.{some, length, ◌++◌, [], ◌∷◌, ◌≡◌, refl, arith, Bytes, length-append}
use libdbi_drivers.Sql.{IsQuoting, EndsLiteral, read_literal}
use libdbi_drivers.Sql.Doubled.{doubled, read_literal-doubled}
use libdbi_drivers.Freetds.Quote.{_dbd_freetds_escape_chars, dbd_quote_string}

escape_chars-doubled : (s : Bytes) → _dbd_freetds_escape_chars s (b'\'' ∷ []) ≡ doubled s
unfolding _dbd_freetds_escape_chars
escape_chars-doubled [] = refl
escape_chars-doubled (c ∷ s) = ground (arith, escape_chars-doubled s)

pub freetds_dbd_quote_string-IsQuoting : IsQuoting (λ s. Unit) dbd_quote_string
unfolding dbd_quote_string
freetds_dbd_quote_string-IsQuoting = record {
  reads_back = λ orig rest p h. rw escape_chars-doubled (read_literal-doubled orig rest h);
  counts = λ orig p.
      omega (arith, length-append {0} (_dbd_freetds_escape_chars orig (b'\'' ∷ [])) (b'\'' ∷ []));
}

-- A server reads the literal back unchanged and stops behind it, and the returned number is the
-- literal's length.
pub freetds_dbd_quote_string_lem :
    (orig rest : Bytes)
    → EndsLiteral rest
    → (read_literal ((dbd_quote_string orig).dest ++ rest) ≡ some (orig, rest))
      × ((dbd_quote_string orig).returned ≡ length (dbd_quote_string orig).dest)
freetds_dbd_quote_string_lem orig rest h = (
  freetds_dbd_quote_string-IsQuoting.reads_back orig rest tt h,
  freetds_dbd_quote_string-IsQuoting.counts orig tt,
)
