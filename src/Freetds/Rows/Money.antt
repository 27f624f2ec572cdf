-- ===== src/Freetds/Rows/Money.antt =====
-- The block for the number that money is converted to.
use libdbi_drivers.Prelude.{ℕ, ◌<◌, Bool, Option, none, some, List, ◌∷◌, ◌≡◌, arith, Bytes, length}
use libdbi_drivers.Dbi.{Libdbi}
use libdbi_drivers.Freetds.Rows.{
  Fetched, bytes, convert, convert_row, _dbd_freetds_buffers_binding, save_rows, fetch_rows,
}
use libdbi_drivers.Freetds.Types.{cs_money, cs_money4, Datafmt}

module _ (lib : Libdbi) (to_numeric to_text : Bytes → Option Bytes) where
  open lib use {Float, Time}

  -- A money value of the first column of the first row, for which `cs_convert` stores a number of more than
  -- the four bytes that are allocated, is written behind the end of the block, whatever the other columns
  -- and rows are.
  pub fetch_rows-money :
      (n : ℕ) (nullterm : Bool) (datafmt : List Datafmt) (s t : Bytes)
      (fetched : List (Fetched Float)) (fetches : List (List (Fetched Float)))
      → to_numeric s ≡ some t
      → 4 < length t
      → (fetch_rows lib to_numeric to_text
            (record { datatype = cs_money; maxlength = n; nullterm = nullterm } ∷ datafmt)
            ((bytes s ∷ fetched) ∷ fetches)
          ≡ none)
        × (fetch_rows lib to_numeric to_text
              (record { datatype = cs_money4; maxlength = n; nullterm = nullterm } ∷ datafmt)
              ((bytes s ∷ fetched) ∷ fetches)
            ≡ none)
  unfolding fetch_rows save_rows _dbd_freetds_buffers_binding convert_row convert
  fetch_rows-money n nullterm datafmt s t fetched fetches e l = (ground arith, ground arith)
