-- ===== src/Sqlite3/Rows/InBounds.antt =====
-- The row reader on the array of a result.
use libdbi_drivers.Prelude.{
  ℕ, suc, ◌+◌, ◌*◌, ◌≤◌, ◌<◌, Option, some, List, [], ◌∷◌, ◌≡◌, refl, ap, arith, Bytes, length,
  get_elem?, get_elem?-lt,
}
use libdbi_drivers.Dbi.{Field, Cell, Libdbi}
use libdbi_drivers.Sqlite3.Rows.{read_cell, read_fields, _get_row_data}

module _ (lib : Libdbi) where
  open lib use {Float, Time}

  read_fields-cons :
      (table : List (Option Bytes)) (numfields rowidx curfield : ℕ) (f : Field) (fs : List Field)
      (raw : Option Bytes) (cells : List (Cell Float Time))
      → get_elem? table (curfield + (rowidx + 1) * numfields) ≡ some raw
      → read_fields lib table numfields rowidx (curfield + 1) fs ≡ some cells
      → read_fields lib table numfields rowidx curfield (f ∷ fs)
        ≡ some (read_cell lib f raw ∷ cells)
  unfolding read_fields
  read_fields-cons table numfields rowidx curfield f fs raw cells got rest = ground arith

  read_fields-some :
      (table : List (Option Bytes)) (numfields rowidx curfield : ℕ) (fields : List Field)
      → curfield + length fields ≤ numfields
      → (rowidx + 2) * numfields ≤ length table
      → (cells : List (Cell Float Time)) × (read_fields lib table numfields rowidx curfield fields
          ≡ some cells)
        × (length cells ≡ length fields)
  read_fields-some table numfields rowidx curfield [] h k = ([], unfold read_fields in refl, refl)
  read_fields-some table numfields rowidx curfield (f ∷ fs) h k =
      let (raw, got) = get_elem?-lt table (curfield + (rowidx + 1) * numfields) (grind arith) in
      let (cells, rest, len) =
        read_fields-some table numfields rowidx (curfield + 1) fs (omega arith) k in
      (
        read_cell lib f raw ∷ cells,
        read_fields-cons table numfields rowidx curfield f fs raw cells got rest,
        ap suc len,
      )

  -- A row of a result of `numrows` rows lies inside the array that `sqlite3_get_table` filled, and
  -- is read whole: one cell for each field.
  pub _get_row_data-some :
      (table : List (Option Bytes)) (fields : List Field) (numrows rowidx : ℕ)
      → length table ≡ (numrows + 1) * length fields
      → rowidx < numrows
      → (cells : List (Cell Float Time)) × (_get_row_data lib table fields rowidx ≡ some cells)
        × (length cells ≡ length fields)
  unfolding _get_row_data
  _get_row_data-some table fields numrows rowidx full h =
      read_fields-some table (length fields) rowidx 0 fields (omega arith) (grind arith)
